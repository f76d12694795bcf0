-- ===== src/Auth/Session.antt =====
-- internal/auth/session.go: sessions and their cookie.
pub mod Live
use idpico.Prelude.{
  ℕ, ◌+◌, ◌/◌, String, Bool, true, false, List, Option, none, some, ◌==◌, if◌then◌else◌,
}
use idpico.Prelude.Int.{ℤ, pos, negsuc}
use idpico.Prelude.Table.{Table, get_at}
use idpico.Errors.{Error, new, wrapped, code_session_expired, code_unauthorized}
use idpico.Domain.{Session, Cookie, second, after}
use idpico.Exec.{
  Exec, Done, pure, raise, require, rethrow, ignore, clock, random_text, set_cookie, ◌>>=◌, ◌>>◌,
}
use idpico.Store.Sessions

-- What the sign-in reads of an `http.Request`: its cookies by name, the CSRF token of the form and of
-- the header, the user agent and the address of the peer.
pub record HttpRequest : Type 0 where
  pub cookies : Table String
  pub csrf_field : String
  pub csrf_header : String
  pub user_agent : String
  pub remote_addr : String

abbrev pub session_cookie_name : String
session_cookie_name = "idpico_session"

pub record SessionService : Type 0 where
  pub cookie_secure : Bool
  pub cookie_domain : String
  pub session_ttl : ℕ

-- The token of a session is its identifier.
unfoldable pub create_session :
    SessionService → String → String → String → List String → Exec Session
create_session s user_id user_agent ip_address amr = do
  token ← random_text
  now ← clock
  let session : Session = record {
    id = token;
    user_id = user_id;
    created_at = now;
    expires_at = now + s.session_ttl;
    user_agent = user_agent;
    ip_address = ip_address;
    amr = amr;
  }
  rethrow (wrapped "failed to create session") (Sessions.create session)
  pure session

unfoldable pub get_session : String → Exec Session
get_session token = do
  session ← Sessions.get_by_id token
  now ← clock
  if after now session.expires_at
      then (do ignore (Sessions.delete token); raise (new code_session_expired "session expired"))
      else pure session

pub delete_session : String → Exec Done
delete_session token = Sessions.delete token

delete_user_sessions : String → Exec Done
delete_user_sessions user_id = Sessions.delete_by_user_id user_id

abbrev session_cookie : SessionService → String → ℤ → Cookie
session_cookie s value max_age = record {
  name = session_cookie_name;
  value = value;
  path = "/";
  domain = s.cookie_domain;
  max_age = max_age;
  http_only = true;
  secure = s.cookie_secure;
  strict = false;
}

unfoldable pub set_session_cookie : SessionService → String → Exec Done
set_session_cookie s token = set_cookie (session_cookie s token (pos (s.session_ttl / second)))

unfoldable pub clear_session_cookie : SessionService → Exec Done
clear_session_cookie s = set_cookie (session_cookie s "" (negsuc 0))

unfoldable pub get_session_from_request : HttpRequest → Exec Session
get_session_from_request r = do
  token ← require (get_at r.cookies session_cookie_name) (new code_unauthorized "no session cookie")
  get_session token

unfoldable pub rotate_session :
    SessionService → String → String → String → String → List String → Exec Session
rotate_session s old_token user_id user_agent ip_address amr = do
  if old_token == "" then pure tt else ignore (Sessions.delete old_token)
  create_session s user_id user_agent ip_address amr
