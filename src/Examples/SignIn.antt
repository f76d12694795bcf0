-- ===== src/Examples/SignIn.antt =====
-- A provider on 1 January 1970, with a user whose second factor is an authenticator, and one whose
-- password is enough.
pub mod Passwords
pub mod Codes
use Prim.Native.Nat.{ℕ, zero, suc}
use mathlib.Core.List as Lists
use Prim.Native.Char.{Char}
use Prim.Native.String
use Prim.Native.String.{◌++◌}
use Prim.Native.String.append
use idpico.Prelude.{
  String, Bool, true, false, ◌≡◌, refl, ◌∙◌, ap, List, [], ◌∷◌, Option, none, some, ◌*◌, ◌+◌, ◌==◌,
  split_last, if◌then◌else◌, arith,
}
use idpico.Prelude.Int.{ℤ, pos, negsuc}
use idpico.Domain.{User, second, PendingLogin, VerificationToken}
use idpico.World.{World, Store}
use idpico.Auth.Totp.{TotpCrypto}
use idpico.Auth.Session.{HttpRequest, SessionService}
use idpico.Auth.Csrf.Signed.{fits_int64}
use idpico.Auth.Csrf.{CsrfService}
use idpico.Auth.Service.{AuthService}
use idpico.Auth.Account.{AccountService}
use idpico.Examples.{start, plain_crypto}

-- Numbers as strokes, which can be read back in front of any text.
abbrev strokes : ℕ → String
strokes zero = ""
strokes (suc n) = String.◌∷◌ "1" (strokes n)

abbrev count_strokes : String → ℕ
count_strokes String.[] = 0
count_strokes (String.◌∷◌ c s) = if String.◌∷◌ c "" == "1" then suc (count_strokes s) else 0

abbrev print_strokes : ℤ → String
print_strokes (pos n) = strokes n
print_strokes (negsuc n) = String.◌∷◌ "-" (strokes n)

abbrev scan_strokes : String → Option ℤ
scan_strokes String.[] = some (pos 0)
scan_strokes (String.◌∷◌ c s) =
    if String.◌∷◌ c "" == "-"
    then some (negsuc (count_strokes s))
    else some (pos (count_strokes (String.◌∷◌ c s)))

-- What does not fit an int64 is not read.
abbrev bounded : Option ℤ → Option ℤ
bounded none = none
bounded (some n) = if fits_int64 n then some n else none

abbrev pub csrf_service : CsrfService
csrf_service = record {
  sign = λ x. "signature";
  print_int = print_strokes;
  scan_timestamp = λ x. bounded (scan_strokes x);
  cookie_secure = false;
  cookie_domain = "";
}

colon : (x : String) → ":" ++ x ≡ String.◌∷◌ ":" x
colon x = append.cons ":" "" x ∙ ap (String.◌∷◌ ":") (append.nil x)

count_strokes-strokes : (n : ℕ) (x : String) → count_strokes (strokes n ++ (":" ++ x)) ≡ n
count_strokes-strokes zero x = rw (append.nil (":" ++ x), colon x) refl
count_strokes-strokes (suc n) x =
    rw (append.cons "1" (strokes n) (":" ++ x)) (ap suc (count_strokes-strokes n x))

scan_strokes-print : (n : ℤ) (x : String) → scan_strokes (print_strokes n ++ (":" ++ x)) ≡ some n
scan_strokes-print (pos zero) x = rw (append.nil (":" ++ x), colon x) refl
scan_strokes-print (pos (suc n)) x =
    rw (append.cons "1" (strokes n) (":" ++ x))
      (ap (λ (k : ℕ). some (pos (suc k))) (count_strokes-strokes n x))
scan_strokes-print (negsuc n) x =
    rw (append.cons "-" (strokes n) (":" ++ x))
      (ap (λ (k : ℕ). some (negsuc k)) (count_strokes-strokes n x))

pub scan_timestamp-print :
    (n : ℤ) (x : String)
    → fits_int64 n ≡ true
    → csrf_service.scan_timestamp (print_strokes n ++ (":" ++ x)) ≡ some n
scan_timestamp-print n x fits = rw (scan_strokes-print n x, fits) refl

-- The code of a step is its number.
abbrev pub plain_totp : TotpCrypto
plain_totp = record {
  decode_base32 = λ s. some [];
  hmac_sha1 = λ key msg. Lists.◌++◌ msg (0 ∷ 0 ∷ 0 ∷ 0 ∷ 0 ∷ 0 ∷ 0 ∷ 0 ∷ 0 ∷ 0 ∷ 0 ∷ 4 ∷ []);
  hash_code = λ c. c;
  to_upper = λ s. s;
  to_lower = λ s. s;
  raw_code = λ n. "abcdefghij";
}

abbrev pub auth_service : AuthService
auth_service = record {
  sessions = record { cookie_secure = false; cookie_domain = ""; session_ttl = 3600 * second };
  csrf = csrf_service;
  crypto = plain_crypto;
  totp = plain_totp;
  passkeys = true;
  audit = true;
  split_host_port = λ a. none;
}

abbrev pub bob : User
bob = record {
  id = "bob";
  email = "bob@example.org";
  password_hash = "$argon2id$pw";
  display_name = "Bob";
  given_name = "";
  family_name = "";
  active = true;
  email_verified = true;
  admin = false;
  totp_secret = "";
  totp_last_step = pos 0;
  recovery_codes = [];
  created_at = 1;
  updated_at = 1;
}

abbrev pub carol : User
carol = record bob {
  id = "carol";
  email = "carol@example.org";
  totp_secret = "SECRET";
  totp_last_step = pos 2;
  recovery_codes = "abcdefghij" ∷ [];
}

abbrev pub request : HttpRequest
request = record {
  cookies =
      ("idpico_csrf", ":random.signature")
      ∷ ("idpico_pending_login", "pending")
      ∷ ("idpico_session", "old")
      ∷ [];
  csrf_field = ":random.signature";
  csrf_header = "";
  user_agent = "browser";
  remote_addr = "192.0.2.1:4000";
}

abbrev carol_waits : PendingLogin
carol_waits = record {
  user_id = "carol";
  email = "carol@example.org";
  expires = 62135596900 * second;
  attempts = 4;
  passkey = none;
}

abbrev pub reset_link : VerificationToken
reset_link = record {
  token_hash = "hash of link";
  user_id = "bob";
  purpose = "password_reset";
  created_at = 1;
  expires_at = 62135596900 * second;
  used = false;
}

-- A minute and a half after midnight.
abbrev pub evening : World
evening = record start {
  store = record start.store { users = bob ∷ carol ∷ []; verification_tokens = reset_link ∷ [] };
  now = 62135596890 * second;
  memory = record {
    lockout = some (record { max_attempts = 3; duration = 60; attempts = []; to_lower = λ a. a });
    pending = ("pending", carol_waits) ∷ [];
    last_reset = [];
  };
}

abbrev pub account_service : AccountService
account_service = record {
  crypto = plain_crypto;
  base_url = "https://id.example";
  reset_ttl = 3600 * second;
  verify_ttl = 86400 * second;
  reset_interval = 120 * second;
  audit = true;
  hash_token = λ t. String.◌++◌ "hash of " t;
  query_escape = λ t. t;
  print_int = λ n. "some";
  print_duration = λ n. "a while";
  send = λ m. true;
}
