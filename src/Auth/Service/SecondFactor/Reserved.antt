-- ===== src/Auth/Service/SecondFactor/Reserved.antt =====
-- What a counted attempt at a code tells of the pending login.
use idpico.Prelude.{
  String, Bool, true, false, ◌≡◌, refl, sym, ap, ◌∙◌, subst, Option, none, some, ◌==◌, find,
  Bool-cases, inl, inr, arith, if◌then◌else◌,
}
use idpico.Prelude.Table.{get_at}
use idpico.Domain.{Time, User, PendingLogin}
use idpico.World.{Store, World}
use idpico.Exec.{Exec, ok, ◌>>=◌}
use idpico.Exec.Inversion.{
  Same, Same-trans, bind-ok, pure-ok, require-ok, rethrow-ok, else-ok, raise-ok, branch-ok,
}
use idpico.Store.Fetch.{user-fetched}
use idpico.Auth.Session.{HttpRequest}
use idpico.Auth.Csrf.{csrf_cookie_name, form_token}
use idpico.Auth.Csrf.Signed.{IsSigned, validate_token-ok}
use idpico.Auth.Pending
use idpico.Auth.Pending.{counted}
use idpico.Auth.Pending.Granted.{IsOpen, reserve-some}
use idpico.Auth.Service.{
  pure, code_forbidden, new, raise, LockoutService, AuthService, locked_in, pending_cookie_name,
  has_second_factor,
}
use idpico.Auth.Service.SignIn.{is_account_locked-ok}
use idpico.Auth.Service.Due.{has_second_factor-Same}
use idpico.Auth.Service.SecondFactor.{
  drop_pending, Attempt, give_up, usable, load_pending_user, reserved, reserve_attempt,
  reserve_pending_attempt,
}
use idpico.Auth.Service.SecondFactor.Consumed.{StoredUser}
use idpico.Oidc.TokenService.Introspected.Reports.{Same-after}

reserve_attempt-ok :
    (token : String) (w : World) {o : Option PendingLogin} {w' : World}
    → reserve_attempt token w ≡ (ok o, w')
    → (o ≡ (Pending.reserve token w.now w.memory.pending).0)
      × (w'.memory.lockout ≡ w.memory.lockout)
      × Same w w'
unfolding reserve_attempt ◌>>=◌
reserve_attempt-ok token w h = (
  ground arith,
  ground arith,
  record { store = ground arith; now = ground arith; host = ground arith },
)

pub give_up-never :
    {A : Type 0} (s : AuthService) (token : String) (w : World) {a : A} {w' : World}
    → give_up s token w ≡ (ok a, w')
    → ⊥
unfolding give_up
give_up-never s token w h = let (_, w₁, _, h₁) = bind-ok _ _ w h in raise-ok _ w₁ h₁

taken_branch :
    (b : Bool) (m : Exec Bool) (w : World) {w' : World}
    → (if b then m else pure false) w ≡ (ok true, w')
    → (b ≡ true) × (m w ≡ (ok true, w'))
taken_branch true m w h = (refl, h)
taken_branch false m w h = let (e, _) = pure-ok false w h in absurd (ground arith)

usable-ok :
    (s : AuthService) (user : User) (w : World) {w' : World}
    → usable s user w ≡ (ok true, w')
    → (user.active ≡ true) × Same w w'
unfolding usable
usable-ok s user w h =
    let (on, q) = taken_branch user.active (has_second_factor s user) w h in
    (on, Same-after (has_second_factor s user) (has_second_factor-Same s user w) q)

load_pending_user-ok :
    (s : AuthService) (token : String) (p : PendingLogin) (w : World) {a : Attempt} {w' : World}
    → load_pending_user s token p w ≡ (ok a, w')
    → (a.token ≡ token)
      × (a.attempts ≡ p.attempts)
      × StoredUser p.user_id w a.user
      × (a.user.active ≡ true)
      × Same w w'
unfolding load_pending_user
load_pending_user-ok s token p w {a} {w'} h =
    let (user, v, f, h₁) = branch-ok _ _ _ w (λ e x. give_up-never s token x) h in
    let (found, same) = user-fetched p.user_id w f in
    let (fit, v₁, u, h₂) = bind-ok _ _ v h₁ in
    elim (Bool-cases fit) [
      | inr off ↦ absurd (give_up-never s token v₁ (rw off at h₂))
      | inl on ↦
          let (active, same') = usable-ok s user v (rw on at u) in
          let (e, end) = pure-ok _ v₁ (rw on at h₂) in
          (
            ap (λ (x : Attempt). x.token) e,
            ap (λ (x : Attempt). x.attempts) e,
            rw (ap (λ (x : Attempt). x.user) e) found,
            rw (ap (λ (x : Attempt). x.user) e) active,
            rw end (Same-trans same same'),
          )
    ]

-- An attempt that was counted and whose user was found.
pub record Reserved (s : AuthService) (r : HttpRequest) (w : World) (a : Attempt) (w' : World)
    : Type 0 where
  pub cookie : get_at r.cookies (csrf_cookie_name s.csrf) ≡ some (form_token r)
  pub signed : IsSigned s.csrf (form_token r) w.now
  pub pending_cookie : get_at r.cookies pending_cookie_name ≡ some a.token
  pub pending : PendingLogin
  pub unlocked : IsOpen a.token w.now w.memory.pending pending
  pub not_locked : locked_in w.memory.lockout pending.email w.now ≡ false
  pub stored : StoredUser pending.user_id w a.user
  pub active : a.user.active ≡ true
  pub same : Same w w'

reserved-ok :
    (s : AuthService) (token : String) (o : Option PendingLogin) (w : World) {a : Attempt}
    {w' : World}
    → reserved s token o w ≡ (ok a, w')
    → (p : PendingLogin) × (o ≡ some p)
      × (locked_in w.memory.lockout p.email w.now ≡ false)
      × (a.token ≡ token)
      × StoredUser p.user_id w a.user
      × (a.user.active ≡ true)
      × Same w w'
unfolding reserved
reserved-ok s token none w h = let (_, w₁, _, h₁) = bind-ok _ _ w h in absurd (raise-ok _ w₁ h₁)
reserved-ok s token (some p) w {a} {w'} h =
    let (locked, w₁, q, h₁) = bind-ok _ _ w h in
    let (l, e) = is_account_locked-ok p.email w q in
    let (free, h₂) = else-ok locked _ _ w₁ (never w₁) h₁ in
    let (t, _, stored, active, same) = load_pending_user-ok s token p w₁ h₂ in
    (p, refl, sym l ∙ free, t, rw e at stored, active, rw e at same)
  where
    never :
        (v : World) {a : Attempt} {w' : World}
        → (drop_pending s token >>= λ _.
              raise {A = Attempt} (new code_forbidden "account is temporarily locked"))
            v
          ≡ (ok a, w')
        → ⊥
    never v q = let (_, w₁, _, h₁) = bind-ok _ _ v q in raise-ok _ w₁ h₁

pub reserve_pending_attempt-ok :
    (s : AuthService) (r : HttpRequest) (w : World) {a : Attempt} {w' : World}
    → reserve_pending_attempt s r w ≡ (ok a, w')
    → Reserved s r w a w'
unfolding reserve_pending_attempt
reserve_pending_attempt-ok s r w {a} {w'} h =
    let (_, w₁, c, h₁) = bind-ok _ _ w h in
    let (cookie, signed, e₁) = validate_token-ok s.csrf r w (rethrow-ok _ _ w c) in
    let (token, w₂, q, h₂) = bind-ok _ _ w₁ h₁ in
    let (found, e₂) = require-ok _ _ w₁ q in
    let (o, w₃, g, h₃) = bind-ok _ _ w₂ h₂ in
    let (counted_by, lockout, same) = reserve_attempt-ok token w₂ g in
    let (p', there, free, t, stored, active, same') = reserved-ok s token o w₃ h₃ in
    let back = e₂ ∙ e₁ in
    let (p, unlocked, e) = reserve-some token w₂.now w₂.memory.pending (sym counted_by ∙ there) in
    record {
      cookie = cookie;
      signed = signed;
      pending_cookie = found ∙ ap (λ (x : String). some x) (sym t);
      pending = p;
      unlocked =
          subst (λ (x : World). IsOpen a.token x.now x.memory.pending p) back
            (subst (λ (x : String). IsOpen x w₂.now w₂.memory.pending p) (sym t) unlocked);
      not_locked =
          subst (λ (x : World). locked_in x.memory.lockout p.email x.now ≡ false) back
            (free_of p p' w₂ w₃ e lockout same.now free);
      stored =
          subst (λ (x : World). StoredUser p.user_id x a.user) back
            (stored_of p p' w₂ w₃ a.user e same.store stored);
      active = active;
      same = subst (λ (x : World). Same x w') back (Same-trans same same');
    }
  where
    free_of :
        (p p' : PendingLogin) (u v : World)
        → p' ≡ counted p
        → v.memory.lockout ≡ u.memory.lockout
        → v.now ≡ u.now
        → locked_in v.memory.lockout p'.email v.now ≡ false
        → locked_in u.memory.lockout p.email u.now ≡ false
    free_of p p' u v e l n free =
        ap (λ (x : Option LockoutService). locked_in x p.email u.now) (sym l)
        ∙ (ap (λ (x : Time). locked_in v.memory.lockout p.email x) (sym n)
            ∙ (ap (λ (x : PendingLogin). locked_in v.memory.lockout x.email v.now) (sym e) ∙ free))

    stored_of :
        (p p' : PendingLogin) (u v : World) (user : User)
        → p' ≡ counted p
        → v.store ≡ u.store
        → StoredUser p'.user_id v user
        → StoredUser p.user_id u user
    stored_of p p' u v user e same stored =
        ap (λ (x : Store). find (λ (y : User). y.id == p.user_id) x.users) (sym same)
        ∙ (ap (λ (x : PendingLogin). find (λ (y : User). y.id == x.user_id) v.users) (sym e)
            ∙ stored)
