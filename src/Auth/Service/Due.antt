-- ===== src/Auth/Service/Due.antt =====
-- When a second factor is due.
use idpico.Prelude.{
  inl, inr, sym, Bool-cases, keep, List, ◌&&◌, String, true, false, ◌≡◌, ap, ◌∙◌, ◌==◌, arith,
}
use idpico.Domain.{User, Passkey, totp_enabled}
use idpico.World.{World}
use idpico.Store.File.{load}
use idpico.Exec.{err, ok, ◌>>=◌}
use idpico.Exec.Inversion.{branch-cases, Same, pure-ok}
use idpico.Store.Passkeys
use idpico.Errors.{Error}
use idpico.Auth.Service.{AuthService, some_passkey, has_second_factor}

-- The user has no second factor: neither an authenticator nor, where passkeys are configured, one of
-- these.
pub record NoSecondFactor (s : AuthService) (user : User) (w : World) : Type 0 where
  pub no_authenticator : totp_enabled user ≡ false
  pub no_passkey :
      (s.passkeys && some_passkey (keep (λ p. p.user_id == user.id) w.passkeys)) ≡ false

pub has_second_factor-no :
    (s : AuthService) (user : User) (w : World) {w' : World}
    → has_second_factor s user w ≡ (ok false, w')
    → NoSecondFactor s user w
unfolding has_second_factor Passkeys.list_by_user_id load ◌>>=◌
has_second_factor-no s user w h = record {
  no_authenticator = ground arith;
  no_passkey = ground arith;
}

-- The user has an authenticator, or, where passkeys are configured, a passkey or passkeys that cannot
-- be read.
pub data MayHaveSecondFactor (s : AuthService) (user : User) (w : World) : Type 0 where
  authenticator : totp_enabled user ≡ true → MayHaveSecondFactor s user w
  passkey :
      s.passkeys ≡ true
      → some_passkey (keep (λ p. p.user_id == user.id) w.passkeys) ≡ true
      → MayHaveSecondFactor s user w
  unreadable :
      s.passkeys ≡ true
      → (e : Error) → (Passkeys.list_by_user_id user.id w).0 ≡ err e
      → MayHaveSecondFactor s user w

listed-ok :
    (id : String) (w : World) {found : List Passkey} {w' : World}
    → Passkeys.list_by_user_id id w ≡ (ok found, w')
    → found ≡ keep (λ p. p.user_id == id) w.passkeys
unfolding Passkeys.list_by_user_id load ◌>>=◌
listed-ok id w h = ground arith

pub has_second_factor-yes :
    (s : AuthService) (user : User) (w : World) {w' : World}
    → has_second_factor s user w ≡ (ok true, w')
    → MayHaveSecondFactor s user w
unfolding has_second_factor
has_second_factor-yes s user w h = elim (Bool-cases (totp_enabled user)) [
  | inl on ↦ authenticator on
  | inr off ↦ elim (Bool-cases s.passkeys) [
    | inr none_kept ↦
        let (e, _) = pure-ok false w (rw (off, none_kept) at h) in absurd (ground arith)
    | inl kept ↦
        elim (branch-cases (Passkeys.list_by_user_id user.id) _ _ w (rw (off, kept) at h)) [
          | inl (found, v, f, g) ↦
              let (e, _) = pure-ok (some_passkey found) v g in
              passkey kept (ap some_passkey (sym (listed-ok user.id w f)) ∙ sym e)
          | inr (x, v, f, g) ↦ unreadable kept x (ap (λ r. r.0) f)
        ]
  ]
]

pub has_second_factor-Same :
    (s : AuthService) (user : User) (w : World) → Same w (has_second_factor s user w).1
unfolding has_second_factor Passkeys.list_by_user_id load ◌>>=◌
has_second_factor-Same s user w = record {
  store = ground arith;
  now = ground arith;
  host = ground arith;
}
