-- ===== src/Http/Endpoints.antt =====
-- `Token`, `UserInfo`, `Revoke` and `Introspect` of internal/http/oidc.go.
pub mod Answers
use Prim.Native.String
use idpico.Prelude.{
  ℕ, String, Bool, true, false, not, ◌&&◌, ◌||◌, List, [], ◌∷◌, Option, none, some, ◌==◌,
  if◌then◌else◌,
}
use idpico.Errors.{
  Error, coded, caused, redirect, wrapped, foreign, is_code, code_unauthorized, code_invalid_grant,
  code_invalid_scope, code_unauthorized_client,
}
use idpico.World.{World}
use idpico.Exec.{Exec, Result, ok, err, Done}
use idpico.Oidc.Types.{TokenRequest, TokenResponse}
use idpico.Oidc.TokenService.{TokenService}
use idpico.Oidc.TokenService.Exchange.{handle_authorization_code}
use idpico.Oidc.TokenService.Refresh.{handle_refresh_token}
use idpico.Oidc.TokenService.Revocation.{handle_revocation}
use idpico.Oidc.TokenService.Introspection.{IntrospectionResponse, introspect}
use idpico.Oidc.UserInfo.{UserInfoService, UserInfoResponse, get_user_info, extract_bearer_token}
use idpico.Http.Requests.{
  FormRequest, form_value, parse_token_request, parse_revocation_request,
  parse_introspection_request,
}

pub data Body : Type 0 where
  tokens : TokenResponse → Body
  user_info : UserInfoResponse → Body
  introspection : IntrospectionResponse → Body
  token_error : String → String → Body
  text : String → Body
  empty : Body

-- `challenge` is the `WWW-Authenticate` header, and `cacheable` tells that `Cache-Control: no-store` is
-- not set.
pub record Response : Type 0 where
  pub status : ℕ
  pub body : Body
  pub challenge : String
  pub cacheable : Bool

-- `decode_base64` is `base64.StdEncoding.DecodeString`.
pub record OidcHandler : Type 0 where
  pub tokens : TokenService
  pub user_infos : UserInfoService
  pub decode_base64 : String → Option String

abbrev no_store : ℕ → Body → Response
no_store status body = record { status = status; body = body; challenge = ""; cacheable = false }

-- `writeTokenError`
abbrev write_token_error : String → String → ℕ → Response
write_token_error code description status = no_store status (token_error code description)

-- `e.Error()`
abbrev message_of : Error → String
message_of (coded c m) = String.◌++◌ c (String.◌++◌ ": " m)
message_of (caused c m e) =
    String.◌++◌ c (String.◌++◌ ": " (String.◌++◌ m (String.◌++◌ ": " (message_of e))))
message_of (redirect c m) = String.◌++◌ c (String.◌++◌ ": " m)
message_of (wrapped m e) = String.◌++◌ m (String.◌++◌ ": " (message_of e))
message_of (foreign m) = m

-- The message of an error that is itself an `*errors.Error`; a wrapped one does not count.
abbrev shown_message : Error → String
shown_message (coded c m) = m
shown_message (caused c m e) = m
shown_message (redirect c m) = "request failed"
shown_message (wrapped m e) = "request failed"
shown_message (foreign m) = "request failed"

pub error_code : Error → String
error_code e =
    if is_code e code_unauthorized
    then "invalid_client"
    else if is_code e code_invalid_grant
    then "invalid_grant"
    else if is_code e code_invalid_scope
    then "invalid_scope"
    else if is_code e code_unauthorized_client
    then "unauthorized_client"
    else "invalid_request"

pub error_status : Error → ℕ
error_status e = if is_code e code_unauthorized then 401 else 400

unfoldable pub token_answer : Result TokenResponse → Response
token_answer (ok response) = no_store 200 (tokens response)
token_answer (err e) = write_token_error (error_code e) (shown_message e) (error_status e)

-- The answer to what an operation returned.
abbrev answered : {A : Type 0} → (Result A → Response) → Exec A → World → Response × World
answered f m w = let (r, w') = m w in (f r, w')

unfoldable pub serve_grant : OidcHandler → TokenRequest → World → Response × World
serve_grant h req w =
    if req.grant_type == "authorization_code"
    then answered token_answer (handle_authorization_code h.tokens req) w
    else if req.grant_type == "refresh_token"
    then answered token_answer (handle_refresh_token h.tokens req) w
    else (write_token_error "unsupported_grant_type" "grant_type not supported" 400, w)

abbrev not_post : Response
not_post = write_token_error "invalid_request" "method must be POST" 405

abbrev malformed : Error → Response
malformed e = write_token_error "invalid_request" (message_of e) 400

unfoldable pub token : OidcHandler → FormRequest → World → Response × World
token h r w =
    if not (r.method == "POST")
    then (not_post, w)
    else elim (parse_token_request h.decode_base64 r) [
      | err e ↦ (malformed e, w)
      | ok req ↦ serve_grant h req w
    ]

unfoldable revocation_answer : Result Done → Response
revocation_answer (ok u) = no_store 200 empty
revocation_answer (err e) =
    if is_code e code_unauthorized
    then write_token_error "invalid_client" "invalid client credentials" 401
    else no_store 200 empty

unfoldable revoke : OidcHandler → FormRequest → World → Response × World
revoke h r w =
    if not (r.method == "POST")
    then (not_post, w)
    else elim (parse_revocation_request h.decode_base64 r) [
      | err e ↦ (malformed e, w)
      | ok req ↦ answered revocation_answer (handle_revocation h.tokens req) w
    ]

unfoldable introspection_answer : Result IntrospectionResponse → Response
introspection_answer (ok response) = no_store 200 (introspection response)
introspection_answer (err e) =
    if is_code e code_unauthorized
    then write_token_error "invalid_client" "client authentication required" 401
    else write_token_error "server_error" "introspection failed" 500

unfoldable introspect_endpoint : OidcHandler → FormRequest → World → Response × World
introspect_endpoint h r w =
    if not (r.method == "POST")
    then (not_post, w)
    else elim (parse_introspection_request h.decode_base64 r) [
      | err e ↦ (malformed e, w)
      | ok req ↦ answered introspection_answer (introspect h.tokens req) w
    ]

abbrev unauthorized_text : String → Response
unauthorized_text challenge = record {
  status = 401;
  body = text "Unauthorized";
  challenge = challenge;
  cacheable = true;
}

abbrev invalid_token : String
invalid_token = "Bearer error=\"invalid_token\""

user_info_answer : Result UserInfoResponse → Response
user_info_answer (ok response) = record {
  status = 200;
  body = user_info response;
  challenge = "";
  cacheable = true;
}
user_info_answer (err e) = unauthorized_text invalid_token

-- The token of the body, for a form that is posted with no Authorization header.
abbrev body_token : FormRequest → String
body_token r =
    if r.authorization == "" && (r.method == "POST" && r.content_type)
    then elim r.form [ none ↦ "" | some form ↦ form_value r.post_form "access_token" ]
    else ""

bearer : FormRequest → Result String → Result String
bearer r (ok found) = ok found
bearer r (err e) = if body_token r == "" then err e else ok (body_token r)

refused : FormRequest → Response
refused r = unauthorized_text (if r.authorization == "" then "Bearer" else invalid_token)

serve_bearer : OidcHandler → FormRequest → Result String → World → Response × World
unfolding user_info_answer refused
serve_bearer h r (err e) w = (refused r, w)
serve_bearer h r (ok found) w = answered user_info_answer (get_user_info h.user_infos found) w

user_info_endpoint : OidcHandler → FormRequest → World → Response × World
unfolding serve_bearer bearer
user_info_endpoint h r w =
    if not (r.method == "GET") && not (r.method == "POST")
    then (
      record { status = 405; body = text "Method Not Allowed"; challenge = ""; cacheable = true },
      w,
    )
    else serve_bearer h r (bearer r (extract_bearer_token r.authorization w).0) w
