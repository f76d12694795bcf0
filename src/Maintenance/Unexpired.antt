-- ===== src/Maintenance/Unexpired.antt =====
-- What maintenance leaves alone.
use idpico.Prelude.{sym, subst, true, ◌≡◌, refl, List, [], In, In-keep, keep, Option, none, some}
use idpico.Errors.{Error}
use idpico.Domain.{Time, Session, AuthCode, Token, Revocation, VerificationToken, after}
use idpico.World.{Store, World}
use idpico.Exec.{Exec, Done, ◌>>=◌}
use idpico.Exec.Keeps.{
  Keeps-if, Keeps-pure, Keeps-bind, Keeps, keeps_rules, Keeps-save, load-at, save-at,
}
use idpico.Store.File.{sessions, auth_codes, tokens, revocations, verification_tokens}
use idpico.Store.Sessions
use idpico.Store.AuthCodes
use idpico.Store.Tokens
use idpico.Store.Revocations
use idpico.Store.VerificationTokens
use idpico.Store.AuditEvents
use idpico.Auth.Keeps.{record_event-Keeps}
use idpico.Maintenance.{
  OnlyKeys, KeyService, Runner, gather, prune_audit, key_rotated, rotate, maintain_keys, keys_task,
  run_once,
}

-- Of the rows that expire after `n`, those in the first list are in the second.
abbrev pub FreshKept : {A : Type 0} → (A → Time) → Time → List A → List A → Type 0
FreshKept {A = A} expires n xs ys = (a : A) → after (expires a) n ≡ true → In a xs → In a ys

-- What is in date at `n` in the files `u` is in the files `s`, and the clock shows `n`.
abbrev pub Remains : Store → Time → Store → Time → Type 0
Remains u n s t =
    FreshKept (λ (x : Session). x.expires_at) n u.sessions s.sessions
    × FreshKept (λ (x : AuthCode). x.expires_at) n u.auth_codes s.auth_codes
    × FreshKept (λ (x : Token). x.expires_at) n u.tokens s.tokens
    × FreshKept (λ (x : Revocation). x.expires_at) n u.revocations s.revocations
    × FreshKept (λ (x : VerificationToken). x.expires_at) n u.verification_tokens
        s.verification_tokens
    × (t ≡ n)

keep-FreshKept :
    {A : Type 0} (expires : A → Time) (n m : Time) (xs ys : List A)
    → m ≡ n
    → FreshKept expires n xs ys
    → FreshKept expires n xs (keep (λ a. after (expires a) m) ys)
keep-FreshKept expires n m xs ys same h = λ a fresh i. In-keep _ ys a (h a fresh i) (rw same fresh)

module _ (u : Store) (n : Time) where
  sessions-Remains : Keeps (Remains u n) Sessions.delete_expired
  unfolding Sessions.delete_expired ◌>>=◌
  sessions-Remains = load-at (Remains u n) sessions _ _ (λ w h.
      save-at (Remains u n) sessions _ w h (
        keep-FreshKept (λ (x : Session). x.expires_at) n w.now u.sessions w.sessions h.5 h.0,
        h.1,
        h.2,
        h.3,
        h.4,
        h.5,
      ))

  codes-Remains : Keeps (Remains u n) AuthCodes.delete_expired
  unfolding AuthCodes.delete_expired ◌>>=◌
  codes-Remains = load-at (Remains u n) auth_codes _ _ (λ w h.
      save-at (Remains u n) auth_codes _ w h (
        h.0,
        keep-FreshKept (λ (x : AuthCode). x.expires_at) n w.now u.auth_codes w.auth_codes h.5 h.1,
        h.2,
        h.3,
        h.4,
        h.5,
      ))

  tokens-Remains : Keeps (Remains u n) Tokens.delete_expired
  unfolding Tokens.delete_expired ◌>>=◌
  tokens-Remains = load-at (Remains u n) tokens _ _ (λ w h. save-at (Remains u n) tokens _ w h (
    h.0,
    h.1,
    keep-FreshKept (λ (x : Token). x.expires_at) n w.now u.tokens w.tokens h.5 h.2,
    h.3,
    h.4,
    h.5,
  ))

  revocations-Remains : Keeps (Remains u n) Revocations.delete_expired
  unfolding Revocations.delete_expired ◌>>=◌
  revocations-Remains = load-at (Remains u n) revocations _ _ (λ w h.
      save-at (Remains u n) revocations _ w h (
        h.0,
        h.1,
        h.2,
        keep-FreshKept (λ (x : Revocation). x.expires_at) n w.now u.revocations w.revocations h.5
            h.3,
        h.4,
        h.5,
      ))

  links-Remains : Keeps (Remains u n) VerificationTokens.delete_expired
  unfolding VerificationTokens.delete_expired ◌>>=◌
  links-Remains = load-at (Remains u n) verification_tokens _ _ (λ w h.
      save-at (Remains u n) verification_tokens _ w h (
        h.0,
        h.1,
        h.2,
        h.3,
        keep-FreshKept (λ (x : VerificationToken). x.expires_at) n w.now u.verification_tokens
            w.verification_tokens h.5 h.4,
        h.5,
      ))

gather-Keeps :
    {P : Store → Time → Type 0} (task : Exec Done) (errs : List Error)
    → Keeps P task
    → Keeps P (gather task errs)
unfolding gather
gather-Keeps task errs k = search keeps_rules

module _ (u : Store) (n : Time) (m : Runner) where
  audit-Remains : Keeps (Remains u n) (prune_audit m)
  unfolding prune_audit AuditEvents.delete_before
  audit-Remains = search (keeps_rules, Keeps-save) depth 9

  leaves-Remains :
      {A : Type 0} (task : Exec A)
      → ((w : World) → OnlyKeys w (task w).1)
      → Keeps (Remains u n) task
  leaves-Remains task only = record {
    at = λ w h.
        subst (λ (s : Store). Remains u n s (task w).1.now) (sym (only w).store)
          (subst (λ (t : Time). Remains u n w.store t) (sym (only w).now) h);
  }

  rotate-Remains : (keys : KeyService) → Keeps (Remains u n) (rotate m keys)
  unfolding rotate
  rotate-Remains keys =
      Keeps-bind _ _ (leaves-Remains _ (keys.rotate_key_only m.key_grace))
        λ kid. record_event-Keeps {P = Remains u n} (λ x t y h. h) m.audit (key_rotated kid)

  maintain_keys-Remains : (keys : KeyService) → Keeps (Remains u n) (maintain_keys m keys)
  unfolding maintain_keys
  maintain_keys-Remains keys =
      Keeps-bind _ _ (leaves-Remains _ (keys.should_rotate_only m.key_max_age)) λ due.
        Keeps-bind _ _ (Keeps-if due _ _ (λ e. rotate-Remains keys) (λ e. Keeps-pure tt))
          λ d. leaves-Remains _ keys.cleanup_only

  keys-Remains :
      (keys : Option KeyService) (errs : List Error) → Keeps (Remains u n) (keys_task m keys errs)
  keys-Remains none errs = Keeps-pure errs
  keys-Remains (some keys) errs = gather-Keeps _ errs (maintain_keys-Remains keys)

  run_once-Keeps : Keeps (Remains u n) (run_once m)
  unfolding run_once
  run_once-Keeps = Keeps-bind _ _ (gather-Keeps _ [] (sessions-Remains u n)) λ a.
      Keeps-bind _ _ (gather-Keeps _ a (codes-Remains u n)) λ b.
        Keeps-bind _ _ (gather-Keeps _ b (tokens-Remains u n)) λ c.
          Keeps-bind _ _ (gather-Keeps _ c (revocations-Remains u n)) λ d.
            Keeps-bind _ _ (gather-Keeps _ d (links-Remains u n))
              λ e. Keeps-bind _ _ (gather-Keeps _ e audit-Remains) λ f. keys-Remains m.keys f

-- Maintenance deletes nothing that is still in date: whatever file operations fail, each session, each
-- code, each refresh token, each revocation and each verification token that is stored and not out of
-- date is stored afterwards, and the clock is as it was, with a key service, if there is one, that
-- changes no file but that of the signing keys.
pub run_once-Remains :
    (m : Runner) (w : World) → let w' = (run_once m w).1 in Remains w.store w.now w'.store w'.now
run_once-Remains m w =
    (run_once-Keeps w.store w.now m).at w
      ((λ a e i. i), (λ a e i. i), (λ a e i. i), (λ a e i. i), (λ a e i. i), refl)
