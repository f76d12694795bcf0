-- ===== src/Auth/Service/SecondFactor/Completed.antt =====
-- Who completes a sign-in with a code.
use idpico.Prelude.{
  none, sym, subst, String, Bool, true, false, ◌≡◌, refl, ap, ◌∙◌, ◌⊎◌, [], ◌∷◌, trim_space,
  Bool-cases, inl, inr, if◌then◌else◌,
}
use idpico.Domain.{User}
use idpico.World.{World}
use idpico.Exec.{◌>>◌, ok}
use idpico.Exec.Inversion.{bind-ok, pure-ok, raise-ok}
use idpico.Auth.Session.{HttpRequest}
use idpico.Auth.Service.{pure, AuthService}
use idpico.Auth.Service.Started.{HasSession}
use idpico.Prelude.Table.{get_at}
use idpico.Auth.Service.SecondFactor.Finished.{finish_pending_login-ok}
use idpico.Auth.Service.SecondFactor.{
  leb, Attempt, second_factor_failed, finish_pending_login, complete_second_factor,
}
use idpico.Auth.Service.SecondFactor.Consumed.{StoredUser, Stepped, Spent, consume_second_factor-ok}
use idpico.Auth.Service.SecondFactor.Reserved.{Reserved, give_up-never, reserve_pending_attempt-ok}

-- A sign-in that is completed with a code.
pub record Completed (s : AuthService) (r : HttpRequest) (code : String) (w : World) (user : User)
    (w' : World) : Type 0 where
  pub attempt : Attempt
  pub at : World
  pub reservation : Reserved s r w attempt at
  pub before : User
  pub stored_before : StoredUser attempt.user.id at before
  pub factor :
      Stepped s (trim_space code) at.now before user ⊎ Spent s (trim_space code) at.now before user
  pub stored_after : StoredUser attempt.user.id w' user
  pub ended : get_at w'.memory.pending attempt.token ≡ none
  pub signed_in : HasSession user ("pwd" ∷ "otp" ∷ "mfa" ∷ []) w'

failed-never :
    {A : Type 0} (s : AuthService) (r : HttpRequest) (a : Attempt) (detail : String) (w : World)
    {x : A} {w' : World}
    → second_factor_failed s r a detail w ≡ (ok x, w')
    → ⊥
unfolding second_factor_failed
failed-never s r a detail w h =
    let (_, w₁, _, h₁) = bind-ok _ _ w h in
    let (_, w₂, _, h₂) = bind-ok _ _ w₁ h₁ in
    elim (Bool-cases (leb 5 a.attempts)) [
      | inl on ↦ give_up-never s a.token w₂ (rw on at h₂)
      | inr off ↦ raise-ok _ w₂ (rw off at h₂)
    ]

-- What follows the check of the code succeeds only if the code is right.
ended :
    (s : AuthService) (r : HttpRequest) (a : Attempt) (u : User) (right : Bool) (v : World)
    {user : User} {w' : World}
    → (if right
          then (finish_pending_login s r a.token u ("pwd" ∷ "otp" ∷ "mfa" ∷ []) >> pure u)
          else second_factor_failed s r
              (record a { user = u })
              "wrong authenticator or recovery code")
        v
      ≡ (ok user, w')
    → (right ≡ true)
      × (user ≡ u)
      × HasSession user ("pwd" ∷ "otp" ∷ "mfa" ∷ []) w'
      × (get_at w'.memory.pending a.token ≡ none)
      × (StoredUser a.user.id v user → StoredUser a.user.id w' user)
ended s r a u false v h = absurd (failed-never s r (record a { user = u }) _ v h)
ended s r a u true v {user = user} h =
    let (_, v₁, f, g) = bind-ok _ _ v h in
    let (e, end) = pure-ok u v₁ g in
    let (session, gone, kept) = finish_pending_login-ok s r a.token u _ v f in
    (
      refl,
      e,
      rw (e, end) session,
      rw end gone,
      λ stored.
          subst (λ (y : World). StoredUser a.user.id y user) (sym end) (kept a.user.id user stored),
    )

pair_lem : (x : User × Bool) {user : User} → x.1 ≡ true → user ≡ x.0 → x ≡ (user, true)
pair_lem (u, b) on same = cc

-- A sign-in is completed only with a signed and fresh CSRF token, under the cookie of a pending
-- login, which is in time and has attempts left, for an address that is not locked and a stored,
-- enabled user, with a code of that user that is taken. Then the pending login is gone, the user is
-- stored as before but for the step or the recovery code that is used up and the time of the change,
-- and has a session that is marked as made with two factors.
pub complete_second_factor-ok :
    (s : AuthService) (r : HttpRequest) (code : String) (w : World) {user : User} {w' : World}
    → complete_second_factor s r code w ≡ (ok user, w')
    → Completed s r code w user w'
unfolding complete_second_factor
complete_second_factor-ok s r code w {user} h =
    let (a, w₁, q, h₁) = bind-ok _ _ w h in
    let (x, w₂, c, h₂) = bind-ok _ _ w₁ h₁ in
    let (on, e, session, gone, kept) = ended s r a x.0 x.1 w₂ h₂ in
    let taken = c ∙ ap (λ (y : User × Bool). (ok y, w₂)) (pair_lem x on e) in
    let (fresh, before, after, factor) =
      consume_second_factor-ok s r a.user code w₁ {user' = user} taken in
    record {
      attempt = a;
      at = w₁;
      reservation = reserve_pending_attempt-ok s r w q;
      before = fresh;
      stored_before = before;
      factor = factor;
      stored_after = kept after;
      ended = gone;
      signed_in = session;
    }
