-- ===== src/Auth/Account/Links.antt =====
-- Links that are used up.
use idpico.Prelude.{
  eq_iff, find-passes, ◌∙◌, any, ◌≤◌, String, Bool, true, false, not, ◌||◌, ◌&&◌, ◌≡◌, refl, ap,
  ◌∙◌, List, [], ◌∷◌, some, ◌==◌, find, find-passes, keep, all, change_first, Bool-cases, inl, inr,
  arith,
}
use idpico.Domain.{Time, VerificationToken, vt_valid}
use idpico.World.{Store, World}
use idpico.Exec.{Done, ok}
use idpico.Exec.Inversion.{
  Same, bind-ok, check-ok, clock-ok, pure-ok, require-ok, rethrow-ok, raise-ok,
}
use idpico.Store.File.{verification_tokens, load-ok, save-ok, Wrote, Wrote-after}
use idpico.Store.VerificationTokens
use idpico.Store.VerificationTokens.Unique.{count_hash}
use idpico.Auth.Account.{AccountService, consume_token}

-- Every token under the hash is used.
abbrev pub all_used : String → List VerificationToken → Bool
all_used hash ts = all (λ (t : VerificationToken). not (t.token_hash == hash) || t.used) ts

abbrev mark : VerificationToken → VerificationToken
mark t = record t { used = true }

used-absent :
    (hash : String) (ts : List VerificationToken) → count_hash hash ts ≡ 0 → all_used hash ts ≡ true
used-absent hash [] h = refl
used-absent hash (t ∷ ts) h = ground (arith, used-absent hash ts)

pub used-marked :
    (hash : String) (ts : List VerificationToken)
    → count_hash hash ts ≤ 1
    → all_used hash (change_first (λ t. t.token_hash == hash) mark ts) ≡ true
used-marked hash [] h = refl
used-marked hash (t ∷ ts) h = ground (arith, used-absent hash ts, used-marked hash ts)

used-find :
    (hash : String) (ts : List VerificationToken) {t : VerificationToken}
    → all_used hash ts ≡ true
    → find (λ t. t.token_hash == hash) ts ≡ some t
    → t.used ≡ true
used-find hash [] h f = absurd (ground arith)
used-find hash (x ∷ ts) {t} h f = ground (arith, used-find hash ts {t = t})

pub used-keep :
    (hash : String) (p : VerificationToken → Bool) (ts : List VerificationToken)
    → all_used hash ts ≡ true
    → all_used hash (keep p ts) ≡ true
used-keep hash p [] h = refl
used-keep hash p (t ∷ ts) h = ground (arith, used-keep hash p ts)

-- A stored token that a link opens.
pub record Opens (s : AccountService) (token purpose : String) (w : World) (vt : VerificationToken)
    : Type 0 where
  pub stored : find (λ t. t.token_hash == s.hash_token token) w.verification_tokens ≡ some vt
  pub purposed : (vt.purpose == purpose) ≡ true
  pub valid : vt_valid w.now vt ≡ true

both : (a b : Bool) → (a && b) ≡ true → (a ≡ true) × (b ≡ true)
both true b h = (refl, h)
both false b h = absurd (ground arith)

marked-ok :
    (hash : String) (w : World) {u : Done} {w' : World}
    → VerificationTokens.mark_used hash w ≡ (ok u, w')
    → Wrote verification_tokens
        (change_first (λ t. t.token_hash == hash) mark w.verification_tokens)
        w
        w'
unfolding VerificationTokens.mark_used
marked-ok hash w h =
    let (xs, w₁, l, h₁) = bind-ok _ _ w h in
    let (x, same) = load-ok verification_tokens _ w l in
    elim (Bool-cases (any (λ (t : VerificationToken). t.token_hash == hash) xs)) [
      | inr missing ↦ absurd (raise-ok _ w₁ (rw missing at h₁))
      | inl there ↦
          Wrote-after verification_tokens
            (ap (change_first (λ (t : VerificationToken). t.token_hash == hash) mark) x) same
            (save-ok verification_tokens _ w₁ (rw there at h₁))
    ]

fetched-ok :
    (hash : String) (w : World) {vt : VerificationToken} {w' : World}
    → VerificationTokens.get_by_hash hash w ≡ (ok vt, w')
    → (find (λ t. t.token_hash == hash) w.verification_tokens ≡ some vt) × Same w w'
unfolding VerificationTokens.get_by_hash
fetched-ok hash w h =
    let (xs, w₁, l, r) = bind-ok _ _ w h in
    let (x, same) = load-ok verification_tokens _ w l in
    let (found, e) = require-ok _ _ w₁ r in (rw x at found, rw (← e) at same)

-- A link that is taken was open, and the token is stored as used.
pub consume_token-ok :
    (s : AccountService) (token purpose : String) (w : World) {vt : VerificationToken} {w' : World}
    → consume_token s token purpose w ≡ (ok vt, w')
    → Opens s token purpose w vt
      × Wrote verification_tokens
          (change_first (λ t. t.token_hash == s.hash_token token) mark w.verification_tokens)
          w
          w'
unfolding consume_token
consume_token-ok s token purpose w {vt} {w'} h =
    let (_, w₁, c, h₁) = bind-ok _ _ w h in
    let (_, e₁) = check-ok _ _ w c in
    let (t, w₂, f, h₂) = bind-ok _ _ w₁ h₁ in
    let (found, same) = fetched-ok (s.hash_token token) w₁ (rethrow-ok _ _ w₁ f) in
    let (now, w₃, k, h₃) = bind-ok _ _ w₂ h₂ in
    let (n, e₃) = clock-ok w₂ k in
    let (_, w₄, g, h₄) = bind-ok _ _ w₃ h₃ in
    let (fits, e₄) = check-ok _ _ w₃ g in
    let (purposed, valid) = both (t.purpose == purpose) (vt_valid now t) fits in
    let (_, w₅, m, h₅) = bind-ok _ _ w₄ h₄ in
    let wrote = marked-ok t.token_hash w₄ (rethrow-ok _ _ w₄ m) in
    let (e, end) = pure-ok t w₅ h₅ in
    let hash = (eq_iff t.token_hash (s.hash_token token)).0 (
      find-passes (λ (x : VerificationToken). x.token_hash == s.hash_token token)
        w₁.verification_tokens found) in
    let still : Same w w₄ = rw (e₄, e₃, ← e₁) same in
    let stamp : now ≡ w.now = n ∙ (same.now ∙ ap (λ (x : World). x.now) e₁) in
    let opened : Opens s token purpose w t = record {
      stored = rw e₁ at found;
      purposed = purposed;
      valid = rw stamp at valid;
    } in
    let over =
      ap
        (λ (x : String).
          change_first (λ (y : VerificationToken). y.token_hash == x) mark w₄.verification_tokens)
        hash
      ∙ ap
          (λ (x : Store).
            change_first (λ (y : VerificationToken). y.token_hash == s.hash_token token) mark
              x.verification_tokens)
          still.store in
    (rw e opened, rw end (Wrote-after verification_tokens over still wrote))

-- A link whose tokens are all used is not taken.
pub consume_token-used :
    (s : AccountService) (token purpose : String) (w : World) {vt : VerificationToken} {w' : World}
    → all_used (s.hash_token token) w.verification_tokens ≡ true
    → consume_token s token purpose w ≡ (ok vt, w')
    → ⊥
consume_token-used s token purpose w {vt} used h =
    let (opened, _) = consume_token-ok s token purpose w h in
    let spent = used-find (s.hash_token token) w.verification_tokens used opened.stored in
    clash vt w.now spent opened.valid
  where
    clash : (x : VerificationToken) (n : Time) → x.used ≡ true → vt_valid n x ≡ true → ⊥
    clash x n a b = ground arith
