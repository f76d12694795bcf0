-- ===== src/Oidc/Authorize.antt =====
-- internal/oidc/authorize.go: authorization requests, their validation, and authorization codes.
pub mod Number
pub mod Validated
pub mod FreshLogin
pub mod Issued
use Prim.Native.String
use idpico.Prelude.{
  ℕ, zero, ◌+◌, ◌-◌, ◌*◌, ◌<◌, String, Bool, true, false, not, ◌&&◌, ◌||◌, List, [], ◌∷◌, Option,
  none, some, ◌==◌, ltb, leb, find, length, fields, mem_text, if◌then◌else◌,
}
use idpico.Prelude.Int.{ℤ, pos, negsuc, is_negative, ltb_ℤ, to_int64, sub_ℕ}
use idpico.Errors.{Error, is_code, code_not_found, invalid_input, redirect, wrapped}
use idpico.Domain.{Time, second, Client, AuthCode, allows_grant}
use idpico.Exec.{Exec, Done, pure, raise, check, require, rethrow, clock, new_uuid, ◌>>=◌, ◌>>◌}
use idpico.Store.Clients
use idpico.Store.AuthCodes
use Number.{atoi}

pub record AuthorizeRequest : Type 0 where
  pub client_id : String
  pub redirect_uri : String
  pub response_type : String
  pub scope : String
  pub state : String
  pub nonce : String
  pub code_challenge : String
  pub code_challenge_method : String
  pub prompt : List String
  pub max_age : ℤ
  pub raw_max_age : String
  pub has_request : Bool
  pub has_request_uri : Bool
  pub has_registration : Bool

-- `url.Values`
abbrev Values : Type 0
Values = List (String × List String)

abbrev first_of_values : List String → String
first_of_values [] = ""
first_of_values (v ∷ vs) = v

-- `q.Get(key)`: the first value, or the empty text.
abbrev get : Values → String → String
get [] key = ""
get ((k, vs) ∷ q) key = if k == key then first_of_values vs else get q key

-- `q.Has(key)`
abbrev has : Values → String → Bool
has [] key = false
has ((k, vs) ∷ q) key = if k == key then true else has q key

unfoldable pub has_prompt : AuthorizeRequest → String → Bool
has_prompt r value = mem_text value r.prompt

unfoldable pub scopes : AuthorizeRequest → List String
scopes r = fields r.scope

-- `time.Since(t)`: 64 bits of nanoseconds, saturating.
abbrev max_duration : ℕ
max_duration = 9223372036854775807

pub since : Time → Time → ℤ
since now t =
    if leb t now
    then (if leb (now - t) max_duration then pos (now - t) else pos max_duration)
    else if leb (t - now) max_duration
    then sub_ℕ now t
    else negsuc max_duration

-- `time.Duration(n) * time.Second` of a non-negative `n` wraps around at 64 bits.
pub seconds : ℤ → ℤ
seconds (pos n) = to_int64 (n * second)
seconds (negsuc n) = negsuc n

pub requires_fresh_login : AuthorizeRequest → Time → Time → Bool
requires_fresh_login r now auth_time =
    if has_prompt r "login" || has_prompt r "select_account"
    then true
    else not (is_negative r.max_age)
      && (leb auth_time 0 || ltb_ℤ (seconds r.max_age) (since now auth_time))

unfoldable parse_authorize_query : Values → Exec AuthorizeRequest
parse_authorize_query q = do
  check (not (get q "client_id" == "")) (invalid_input "client_id is required")
  check (not (get q "redirect_uri" == "")) (invalid_input "redirect_uri is required")
  pure (record {
    client_id = get q "client_id";
    redirect_uri = get q "redirect_uri";
    response_type = get q "response_type";
    scope = get q "scope";
    state = get q "state";
    nonce = get q "nonce";
    code_challenge = get q "code_challenge";
    code_challenge_method = get q "code_challenge_method";
    prompt = fields (get q "prompt");
    max_age = negsuc 0;
    raw_max_age = get q "max_age";
    has_request = has q "request";
    has_request_uri = has q "request_uri";
    has_registration = has q "registration";
  })

abbrev pub age_of : Option ℤ → Exec ℤ
age_of (some (pos n)) = pure (pos n)
age_of (some (negsuc n)) =
    raise (redirect "invalid_request" "max_age must be a non-negative integer")
age_of none = raise (redirect "invalid_request" "max_age must be a non-negative integer")

-- The value of `max_age` once it is read; -1 where it is absent.
unfoldable pub read_max_age : AuthorizeRequest → Exec ℤ
read_max_age req = if req.raw_max_age == "" then pure req.max_age else age_of (atoi req.raw_max_age)

abbrev pub more_than_one : List String → Bool
more_than_one [] = false
more_than_one (p ∷ []) = false
more_than_one (p ∷ q ∷ ps) = true

abbrev not_allowed : String → Error
not_allowed scope =
    redirect "invalid_scope"
      (String.◌++◌ "scope '" (String.◌++◌ scope "' not allowed for this client"))

abbrev pub all_scopes_allowed : Option String → Exec Done
all_scopes_allowed none = pure tt
all_scopes_allowed (some scope) = raise (not_allowed scope)

-- The checks behind those on the client and its redirect URI, in the order of the code.
unfoldable pub validate_request : Client → AuthorizeRequest → Exec AuthorizeRequest
validate_request client req = do
  check (not req.has_request) (redirect "request_not_supported" "request objects are not supported")
  check (not req.has_request_uri)
      (redirect "request_uri_not_supported" "request_uri is not supported")
  check (not req.has_registration)
      (redirect "registration_not_supported" "the registration parameter is not supported")
  max_age ← read_max_age req
  check (not (has_prompt req "none" && more_than_one req.prompt))
      (redirect "invalid_request" "prompt=none cannot be combined with other prompt values")
  check (req.response_type == "code")
      (redirect "unsupported_response_type" "response_type must be 'code'")
  check (allows_grant client "authorization_code")
      (redirect "unauthorized_client" "client is not allowed the authorization_code grant")
  check (mem_text "openid" (scopes req)) (redirect "invalid_scope" "scope must contain 'openid'")
  check (not (client.public && req.code_challenge == ""))
      (redirect "invalid_request" "code_challenge is required for public clients")
  check (req.code_challenge == "" || req.code_challenge_method == "S256")
      (redirect "invalid_request" "code_challenge_method must be S256")
  all_scopes_allowed (find (λ sc. not (mem_text sc client.scopes)) (scopes req))
  pure (record req { max_age = max_age })

abbrev unknown_client : Error → Error
unknown_client e = if is_code e code_not_found then invalid_input "unknown client_id" else e

-- The client, and the request with its `MaxAge` set.
unfoldable pub validate_client : AuthorizeRequest → Exec (Client × AuthorizeRequest)
validate_client req = do
  client ← rethrow unknown_client (Clients.get_by_id req.client_id)
  check (mem_text req.redirect_uri client.redirect_uris) (invalid_input "invalid redirect_uri")
  checked ← validate_request client req
  pure (client, checked)

unfoldable pub create_auth_code : ℕ → AuthorizeRequest → String → Time → List String → Exec AuthCode
create_auth_code code_ttl req user_id auth_time amr = do
  id ← new_uuid
  now ← clock
  let code : AuthCode = record {
    code = id;
    client_id = req.client_id;
    user_id = user_id;
    redirect_uri = req.redirect_uri;
    scope = req.scope;
    code_challenge = req.code_challenge;
    code_challenge_method = req.code_challenge_method;
    nonce = req.nonce;
    auth_time = auth_time;
    amr = amr;
    created_at = 0;
    expires_at = now + code_ttl;
    used = false;
  }
  rethrow (wrapped "failed to create auth code") (AuthCodes.create code)
  pure (record code { created_at = now })
