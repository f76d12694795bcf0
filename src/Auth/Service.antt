-- ===== src/Auth/Service.antt =====
-- internal/auth/service.go: sign-in with a password, sign-out, and who is signed in.
pub mod SecondFactor
pub mod Started
pub mod Due
pub mod SignIn
use idpico.Prelude.{
  ℕ, String, Bool, true, false, not, List, [], ◌∷◌, Option, none, some, ◌==◌, if◌then◌else◌,
}
use idpico.Prelude.Int.{ℤ, pos, negsuc}
use idpico.Prelude.Table.{get_at}
use idpico.Errors.{
  foreign, Error, new, wrapped, is_code, code_not_found, code_unauthorized, code_forbidden,
}
use idpico.Domain.{Time, User, Session, Passkey, Cookie, PendingLogin, totp_enabled}
use idpico.World.{Memory}
use idpico.Exec.{
  gets, Exec, Done, pure, raise, check, require, rethrow, ignore, branch, clock, new_uuid,
  random_text, modify, set_cookie, ◌>>=◌, ◌>>◌,
}
use idpico.Store.Users
use idpico.Store.Passkeys
use idpico.Audit
use idpico.Audit.{Event, record_event, client_ip}
use idpico.Oidc.Types.{Crypto}
use idpico.Auth.Password.{hash_password}
use idpico.Auth.Lockout.{LockoutService, is_locked, record_failure, record_success}
use idpico.Auth.Totp.{TotpCrypto}
use idpico.Auth.Session.{
  HttpRequest, SessionService, session_cookie_name, rotate_session, set_session_cookie,
  clear_session_cookie, get_session_from_request, delete_session,
}
use idpico.Auth.Csrf.{CsrfService, validate_token, clear_token}
use idpico.Auth.Pending

-- `passkeys` tells whether a passkey store is configured, `audit` whether there is a recorder, and
-- `split_host_port` is the host that `net.SplitHostPort` finds.
pub record AuthService : Type 0 where
  pub sessions : SessionService
  pub csrf : CsrfService
  pub crypto : Crypto
  pub totp : TotpCrypto
  pub passkeys : Bool
  pub audit : Bool
  pub split_host_port : String → Option String

abbrev locked_in : Option LockoutService → String → Time → Bool
locked_in none email now = false
locked_in (some l) email now = is_locked l email now

-- `s.lockout != nil && s.lockout.IsLocked(email)`
unfoldable pub is_account_locked : String → Exec Bool
is_account_locked email = modify (λ m now. (locked_in m.lockout email now, m))

abbrev failed_in : Option LockoutService → String → Time → Option LockoutService
failed_in none email now = none
failed_in (some l) email now = some (record_failure l email now).0

-- Whether this failure locked the account is only logged.
unfoldable pub count_failure : String → Exec Done
count_failure email = modify (λ m now. (tt, record m { lockout = failed_in m.lockout email now }))

abbrev succeeded_in : Option LockoutService → String → Option LockoutService
succeeded_in none email = none
succeeded_in (some l) email = some (record_success l email)

unfoldable pub clear_failures : String → Exec Done
clear_failures email = modify (λ m now. (tt, record m { lockout = succeeded_in m.lockout email }))

abbrev invalid_credentials : Error
invalid_credentials = new code_unauthorized "invalid credentials"

abbrev lookup_error : Error → Error
lookup_error e =
    if is_code e code_not_found then invalid_credentials else wrapped "failed to get user" e

-- `burnPasswordCheck` takes time and does nothing else.
unfoldable pub authenticate : AuthService → String → String → Exec User
authenticate s email password = do
  user ← rethrow lookup_error (Users.get_by_email email)
  check user.active (new code_unauthorized "account is disabled")
  valid ← require (s.crypto.verify_password password user.password_hash) invalid_credentials
  check valid invalid_credentials
  pure user

abbrev pub event_of : String → User → String → HttpRequest → Event
event_of action user detail r = record {
  actor = some user;
  actor_email = "";
  action = action;
  target_type = "user";
  target_id = user.id;
  detail = detail;
  ip = client_ip r.remote_addr;
}

abbrev pub anonymous_event : String → String → String → String → HttpRequest → Event
anonymous_event action email target_id detail r = record {
  actor = none;
  actor_email = email;
  action = action;
  target_type = "user";
  target_id = target_id;
  detail = detail;
  ip = client_ip r.remote_addr;
}

abbrev or_else : String → Option String → String
or_else text none = text
or_else text (some found) = found

abbrev get_client_ip : AuthService → HttpRequest → String
get_client_ip s r = or_else r.remote_addr (s.split_host_port r.remote_addr)

unfoldable pub start_session : AuthService → HttpRequest → User → List String → Exec Done
start_session s r user amr = do
  clear_failures user.email
  let old_token = or_else "" (get_at r.cookies session_cookie_name)
  session ←
      rethrow (wrapped "failed to create session")
        (rotate_session s.sessions old_token user.id r.user_agent (get_client_ip s r) amr)
  set_session_cookie s.sessions session.id
  clear_token s.csrf
  record_event s.audit (event_of "login.success" user "" r)

abbrev some_passkey : List Passkey → Bool
some_passkey [] = false
some_passkey (p ∷ ps) = true

-- A store error counts as yes.
unfoldable pub has_second_factor : AuthService → User → Exec Bool
has_second_factor s user =
    if totp_enabled user
    then pure true
    else if not s.passkeys
    then pure false
    else branch (Passkeys.list_by_user_id user.id) (λ found. pure (some_passkey found))
        (λ _. pure true)

abbrev pub pending_cookie_name : String
pending_cookie_name = "idpico_pending_login"

abbrev pub pending_cookie : AuthService → String → ℤ → Cookie
pending_cookie s value max_age = record {
  name = pending_cookie_name;
  value = value;
  path = "/login";
  domain = s.sessions.cookie_domain;
  max_age = max_age;
  http_only = true;
  secure = s.sessions.cookie_secure;
  strict = false;
}

-- `code_due` is the user with `ErrSecondFactorRequired`.
pub data LoginResult : Type 0 where
  signed_in : User → LoginResult
  code_due : User → LoginResult

unfoldable pub await_code : AuthService → User → Exec Done
await_code s user = do
  token ← random_text
  modify (λ m now. (tt, record m { pending = Pending.add token user now m.pending }))
  set_cookie (pending_cookie s token (pos 300))
  clear_token s.csrf

unfoldable pub after_password : AuthService → HttpRequest → User → Exec LoginResult
after_password s r user = do
  due ← has_second_factor s user
  if due
      then (do await_code s user; pure (code_due user))
      else (do start_session s r user ("pwd" ∷ []); pure (signed_in user))

pub login_failed : {A : Type 0} → AuthService → HttpRequest → String → Error → Exec A
login_failed s r email e = do
  count_failure email
  record_event s.audit (anonymous_event "login.failure" email "" "" r)
  raise e

pub login_locked : {A : Type 0} → AuthService → HttpRequest → String → Exec A
login_locked s r email = do
  record_event s.audit (anonymous_event "login.locked" email "" "" r)
  raise (new code_forbidden "account is temporarily locked")

unfoldable pub login : AuthService → HttpRequest → String → String → Exec LoginResult
login s r email password = do
  rethrow (λ _. new code_forbidden "invalid CSRF token") (validate_token s.csrf r)
  locked ← is_account_locked email
  if locked
      then login_locked s r email
      else branch (authenticate s email password) (after_password s r) (login_failed s r email)

unfoldable pub get_current_user : HttpRequest → Exec User
get_current_user r = do
  session ← get_session_from_request r
  user ← Users.get_by_id session.user_id
  check user.active (new code_unauthorized "account is disabled")
  pure user

unfoldable current_session : HttpRequest → Exec (Session × User)
current_session r = do
  session ← get_session_from_request r
  user ← Users.get_by_id session.user_id
  check user.active (new code_unauthorized "account is disabled")
  pure (session, user)

unfoldable create_user : AuthService → String → String → String → Exec User
create_user s email password display_name = do
  hash ← rethrow (wrapped "failed to hash password") (hash_password s.crypto password)
  id ← new_uuid
  let user : User = record {
    id = id;
    email = email;
    password_hash = hash;
    display_name = display_name;
    given_name = "";
    family_name = "";
    active = true;
    email_verified = false;
    admin = false;
    totp_secret = "";
    totp_last_step = pos 0;
    recovery_codes = [];
    created_at = 0;
    updated_at = 0;
  }
  Users.create user
  now ← clock
  pure (record user { created_at = now; updated_at = now })

is_authenticated : HttpRequest → Exec Bool
is_authenticated r = branch (get_session_from_request r) (λ _. pure true) (λ _. pure false)

end_session : AuthService → HttpRequest → Option String → Exec Done
end_session s r none = pure tt
end_session s r (some token) = if token == "" then pure tt else (do
  if s.audit
      then branch (get_current_user r) (λ user. record_event s.audit (event_of "logout" user "" r))
          (λ _. pure tt)
      else pure tt
  ignore (delete_session token))

unfoldable logout : AuthService → HttpRequest → Exec Done
unfolding end_session
logout s r = do
  end_session s r (get_at r.cookies session_cookie_name)
  clear_session_cookie s.sessions
  clear_token s.csrf
