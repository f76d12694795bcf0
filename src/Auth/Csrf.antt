-- ===== src/Auth/Csrf.antt =====
-- internal/auth/csrf.go: the token that a form and a cookie must both carry.
pub mod Signed
use Prim.Native.String.{◌++◌}
use idpico.Prelude.{
  ℕ, ◌+◌, ◌*◌, suc, String, Bool, true, false, not, ◌&&◌, ◌||◌, Option, none, some, ◌==◌,
  split_last, if◌then◌else◌,
}
use idpico.Prelude.Int.{ℤ, pos, negsuc, sub_ℕ, add_ℕ, ltb_ℤ}
use idpico.Prelude.Table.{get_at}
use idpico.Errors.{foreign}
use idpico.Domain.{Time, Cookie, second, unix}
use idpico.Exec.{
  Exec, Done, pure, raise, check, require, clock, random_text, set_cookie, ◌>>=◌, ◌>>◌,
}
use idpico.Auth.Session.{HttpRequest}

-- `sign` is the base64url text of the HMAC-SHA-256 of a text under the secret, `print_int` is
-- `fmt.Sprintf("%d", n)`, and `scan_timestamp` is `fmt.Sscanf(s, "%d:", &n)`, both at an int64.
pub record CsrfService : Type 0 where
  pub sign : String → String
  pub print_int : ℤ → String
  pub scan_timestamp : String → Option ℤ
  pub cookie_secure : Bool
  pub cookie_domain : String

abbrev pub csrf_ttl : ℕ
csrf_ttl = 3600

unfoldable pub csrf_cookie_name : CsrfService → String
csrf_cookie_name s =
    if s.cookie_secure && s.cookie_domain == "" then "__Host-idpico_csrf" else "idpico_csrf"

abbrev pub csrf_cookie : CsrfService → String → ℤ → Cookie
unfolding csrf_cookie_name
csrf_cookie s value max_age = record {
  name = csrf_cookie_name s;
  value = value;
  path = "/";
  domain = s.cookie_domain;
  max_age = max_age;
  http_only = false;
  secure = s.cookie_secure;
  strict = true;
}

-- The token of the n-th random text at a time.
unfoldable pub signed_token : CsrfService → String → Time → String
signed_token s random t =
    let signed = s.print_int (unix t) ++ (":" ++ random) in signed ++ ("." ++ s.sign signed)

unfoldable pub generate_token : CsrfService → Exec String
generate_token s = do
  random ← random_text
  now ← clock
  let token = signed_token s random now
  set_cookie (csrf_cookie s token (pos csrf_ttl))
  pure token

abbrev seconds : ℤ → ℤ
seconds (pos a) = pos (a * second)
seconds (negsuc a) = sub_ℕ 0 (suc a * second)

-- `time.Unix(n, 0)` in nanoseconds after the zero time.
abbrev from_unix : ℤ → ℤ
from_unix n = seconds (add_ℕ n 62135596800)

unfoldable pub check_timestamp : Option ℤ → Exec Done
check_timestamp none = raise (foreign "invalid CSRF token timestamp")
check_timestamp (some n) = do
  now ← clock
  check (not (ltb_ℤ (add_ℕ (from_unix n) (csrf_ttl * second)) (pos now)))
      (foreign "CSRF token expired")

unfoldable pub validate_token_format : CsrfService → String → Exec Done
validate_token_format s token = do
  (signed, signature) ← require (split_last 46 token) (foreign "invalid CSRF token format")
  check (not (signed == "" || signature == "")) (foreign "invalid CSRF token format")
  check (signature == s.sign signed) (foreign "invalid CSRF token signature")
  check_timestamp (s.scan_timestamp signed)

abbrev pub form_token : HttpRequest → String
form_token r = if r.csrf_field == "" then r.csrf_header else r.csrf_field

unfoldable pub validate_token : CsrfService → HttpRequest → Exec Done
unfolding csrf_cookie_name
validate_token s r = do
  check (not (form_token r == "")) (foreign "missing CSRF token")
  cookie ← require (get_at r.cookies (csrf_cookie_name s)) (foreign "missing CSRF cookie")
  check (form_token r == cookie) (foreign "CSRF token mismatch")
  validate_token_format s (form_token r)

unfoldable pub clear_token : CsrfService → Exec Done
clear_token s = set_cookie (csrf_cookie s "" (negsuc 0))
