-- ===== src/Errors.antt =====
-- internal/errors/errors.go, and the errors that other packages wrap or return beside it.
use Prim.Native.String.{◌++◌}
use idpico.Prelude.{String, Bool, false, ◌==◌}

abbrev pub code_internal : String
code_internal = "internal_error"

abbrev pub code_not_found : String
code_not_found = "not_found"

abbrev pub code_already_exists : String
code_already_exists = "already_exists"

abbrev pub code_invalid_input : String
code_invalid_input = "invalid_input"

abbrev pub code_unauthorized : String
code_unauthorized = "unauthorized"

abbrev pub code_token_invalid : String
code_token_invalid = "token_invalid"

abbrev pub code_session_expired : String
code_session_expired = "session_expired"

abbrev pub code_invalid_grant : String
code_invalid_grant = "invalid_grant"

abbrev pub code_invalid_scope : String
code_invalid_scope = "invalid_scope"

abbrev pub code_unauthorized_client : String
code_unauthorized_client = "unauthorized_client"

abbrev pub code_conflict : String
code_conflict = "conflict"

abbrev pub code_forbidden : String
code_forbidden = "forbidden"

-- `coded` and `caused` are `*errors.Error` without and with an inner error, `redirect` is
-- `*oidc.RedirectError`, `wrapped` is `fmt.Errorf` with `%w`, and `foreign` is an error of another
-- package.
pub data Error : Type 0 where
  coded : String → String → Error
  caused : String → String → Error → Error
  redirect : String → String → Error
  wrapped : String → Error → Error
  foreign : String → Error

-- `errors.As` stops at the first `*Error` of the chain, and its code is compared.
abbrev pub is_code : Error → String → Bool
is_code (coded c m) code = c == code
is_code (caused c m e) code = c == code
is_code (redirect c m) code = false
is_code (wrapped m e) code = is_code e code
is_code (foreign m) code = false

abbrev pub new : String → String → Error
new code message = coded code message

abbrev pub wrap : Error → String → String → Error
wrap e code message = caused code message e

abbrev pub not_found : String → String → Error
not_found resource id = coded code_not_found (resource ++ (" not found: " ++ id))

abbrev pub already_exists : String → String → Error
already_exists resource id = coded code_already_exists (resource ++ (" already exists: " ++ id))

abbrev pub invalid_input : String → Error
invalid_input message = coded code_invalid_input message

abbrev pub invalid_grant : String → Error
invalid_grant message = coded code_invalid_grant message

abbrev pub invalid_scope : String → Error
invalid_scope message = coded code_invalid_scope message

abbrev pub unauthorized_client : String → Error
unauthorized_client message = coded code_unauthorized_client message

abbrev pub conflict : String → Error
conflict message = coded code_conflict message

abbrev pub unauthorized : String → Error
unauthorized message = coded code_unauthorized message

abbrev pub internal : String → Error → Error
internal message e = caused code_internal message e
