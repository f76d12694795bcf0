-- ===== src/Auth/Service/SignIn.antt =====
-- Who signs in with a password, and who is signed in.
use idpico.Prelude.{sym, String, Bool, true, false, ◌≡◌, ap, ◌∙◌, some, ◌==◌, find, arith}
use idpico.Domain.{User}
use idpico.World.{Store, World}
use idpico.Exec.{◌>>=◌, ok, ◌>>=◌}
use idpico.Exec.Inversion.{Same-trans, Same, bind-ok, check-ok, pure-ok}
use idpico.Store.Users
use idpico.Auth.Service.Started.{HasSession}
use idpico.Prelude.{◌∷◌}
use idpico.Auth.Csrf.{csrf_cookie_name, form_token}
use idpico.Auth.Csrf.Signed.{IsSigned}
use idpico.Auth.Session.Live.{Carries, get_session_from_request-ok}
use idpico.Auth.Session.{HttpRequest}
use idpico.Store.Fetch.{user-fetched}
use idpico.Auth.Service.{
  code_due, [], get_at, signed_in, Session, HttpRequest, LoginResult, get_current_user, AuthService,
  locked_in, is_account_locked,
}
use idpico.Auth.Service.Due.{NoSecondFactor, MayHaveSecondFactor}

pub is_account_locked-ok :
    (email : String) (w : World) {b : Bool} {w' : World}
    → is_account_locked email w ≡ (ok b, w')
    → (b ≡ locked_in w.memory.lockout email w.now) × (w' ≡ w)
unfolding is_account_locked ◌>>=◌
is_account_locked-ok email w h = ground arith

-- The credentials are those of a stored, enabled user.
pub record Authentic (s : AuthService) (email password : String) (w : World) (user : User)
    : Type 0 where
  pub stored : find (λ u. w.host.equal_fold u.email email) w.users ≡ some user
  pub active : user.active ≡ true
  pub verified : s.crypto.verify_password password user.password_hash ≡ some true

-- What a login ends in: a session, for a user with no second factor, or a code that is due, and then
-- the sessions are as they were.
pub data Outcome (s : AuthService) (user : User) (w : World) (result : LoginResult) (w' : World)
    : Type 0 where
  with_session :
      result ≡ signed_in user
      → NoSecondFactor s user w
      → HasSession user ("pwd" ∷ []) w'
      → Outcome s user w result w'
  until_code :
      result ≡ code_due user
      → MayHaveSecondFactor s user w
      → w'.sessions ≡ w.sessions
      → Outcome s user w result w'

-- A login that ends without an error.
pub record LoggedIn (s : AuthService) (r : HttpRequest) (email password : String) (w : World)
    (result : LoginResult) (w' : World) : Type 0 where
  pub cookie : get_at r.cookies (csrf_cookie_name s.csrf) ≡ some (form_token r)
  pub signed : IsSigned s.csrf (form_token r) w.now
  pub not_locked : locked_in w.memory.lockout email w.now ≡ false
  pub user : User
  pub authentic : Authentic s email password w user
  pub at : World
  pub same : Same w at
  pub outcome : Outcome s user at result w'

-- Who is signed in: the owner of the live session whose token the request carries, who is stored and
-- enabled; and the files and the clock are as they were.
pub get_current_user-ok :
    (r : HttpRequest) (w : World) {user : User} {w' : World}
    → get_current_user r w ≡ (ok user, w')
    → (session : Session) × Carries r w session
      × (find (λ u. u.id == session.user_id) w.users ≡ some user)
      × (user.active ≡ true)
      × Same w w'
unfolding get_current_user
get_current_user-ok r w h =
    let (session, w₁, q, h₁) = bind-ok _ _ w h in
    let (carries, same) = get_session_from_request-ok r w q in
    let (u, w₂, f, h₂) = bind-ok _ _ w₁ h₁ in
    let (found, same') = user-fetched session.user_id w₁ f in
    let (_, w₃, c, h₃) = bind-ok _ _ w₂ h₂ in
    let (active, e) = check-ok _ _ w₂ c in
    let (e', end) = pure-ok u w₃ h₃ in
    let here =
      ap (λ (x : Store). find (λ (y : User). y.id == session.user_id) x.users) (sym same.store)
      ∙ found in
    (session, carries, rw e' here, rw e' active, rw (end, e) (Same-trans same same'))
