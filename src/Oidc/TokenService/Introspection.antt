-- ===== src/Oidc/TokenService/Introspection.antt =====
-- `introspect` of internal/oidc/token.go (RFC 7662), and `accessTokenRevoked`.
use idpico.Prelude.{String, Bool, true, false, not, Option, none, some, ◌==◌, leb, if◌then◌else◌}
use idpico.Errors.{unauthorized}
use idpico.Prelude.Int.{ℤ, pos}
use idpico.Domain.{Client, Time, unix, Token, is_valid}
use idpico.Exec.{Exec, pure, check, rethrow, branch, clock, ◌>>=◌, ◌>>◌}
use idpico.Store.Clients
use idpico.Store.Tokens
use idpico.Store.Users
use idpico.Store.Revocations
use idpico.Oidc.Types.{Claims, Crypto}
use idpico.Oidc.ClientSecret.{authenticate_client}
use idpico.Oidc.TokenService.{TokenService}

pub record IntrospectionRequest : Type 0 where
  pub token : String
  pub token_type_hint : String
  pub client_id : String
  pub client_secret : String

pub record IntrospectionResponse : Type 0 where
  pub active : Bool
  pub scope : String
  pub client_id : String
  pub username : String
  pub token_type : String
  pub exp : ℤ
  pub iat : ℤ
  pub sub : String
  pub aud : String
  pub iss : String

-- `&IntrospectionResponse{Active: false}`
abbrev pub inactive : IntrospectionResponse
inactive = record {
  active = false;
  scope = "";
  client_id = "";
  username = "";
  token_type = "";
  exp = pos 0;
  iat = pos 0;
  sub = "";
  aud = "";
  iss = "";
}

-- `enabled` is whether there is a revocation repository.
unfoldable pub access_token_revoked : Bool → Crypto → Claims → Exec Bool
access_token_revoked enabled c claims =
    if not enabled
    then pure false
    else if leb (c.issued_at_of claims) 0
    then pure false
    else Revocations.is_revoked claims.id claims.subject claims.client_id (c.issued_at_of claims)

unfoldable pub user_active : String → Exec Bool
user_active user_id = branch (Users.get_by_id user_id) (λ user. pure user.active) (λ _. pure false)

-- A nil date would be a panic; the claims of a token that the generator accepts carry both dates.
abbrev unix_date : Option Time → ℤ
unix_date none = pos 0
unix_date (some t) = unix t

unfoldable pub report_access_token : Claims → IntrospectionResponse
report_access_token claims = record {
  active = true;
  scope = claims.scope;
  client_id = claims.client_id;
  username = "";
  token_type = "Bearer";
  exp = unix_date claims.expires_at;
  iat = unix_date claims.issued_at;
  sub = claims.subject;
  aud = claims.client_id;
  iss = claims.issuer;
}

unfoldable pub introspect_access_token : TokenService → Claims → Exec IntrospectionResponse
introspect_access_token s claims = do
  revoked ← access_token_revoked s.revocations s.crypto claims
  if revoked then pure inactive else (do
    active ← user_active claims.subject
    pure (if active then report_access_token claims else inactive))

unfoldable pub report_refresh_token : Token → String → IntrospectionResponse
report_refresh_token t username = record {
  active = true;
  scope = t.scope;
  client_id = t.client_id;
  username = username;
  token_type = "refresh_token";
  exp = unix t.expires_at;
  iat = pos 0;
  sub = t.user_id;
  aud = "";
  iss = "";
}

-- What a valid refresh token is reported as: its user is read twice, as in the source.
unfoldable pub introspect_valid_token : Token → Exec IntrospectionResponse
introspect_valid_token t = do
  active ← user_active t.user_id
  if active
      then (do
        username ← branch (Users.get_by_id t.user_id) (λ user. pure user.email) (λ _. pure "")
        pure (report_refresh_token t username))
      else pure inactive

unfoldable pub introspect_refresh_token : Token → Exec IntrospectionResponse
introspect_refresh_token t = do
  now ← clock
  if is_valid now t then introspect_valid_token t else pure inactive

-- Who asks: a confidential client, authenticated.
unfoldable pub identify_resource_server : TokenService → String → String → Exec Client
identify_resource_server s client_id secret = do
  check (not (client_id == "")) (unauthorized "client authentication required")
  client ← rethrow (λ _. unauthorized "invalid client credentials") (Clients.get_by_id client_id)
  check (not client.public) (unauthorized "introspection requires a confidential client")
  authentic ← authenticate_client s.crypto client secret
  check authentic (unauthorized "invalid client credentials")
  pure client

-- The access token is tried first, and then the refresh token.
unfoldable pub introspect_token : TokenService → String → Exec IntrospectionResponse
introspect_token s token =
    branch (s.generator.validate_access_token token) (introspect_access_token s)
      λ _. branch (Tokens.get_by_id token) introspect_refresh_token (λ _. pure inactive)

unfoldable pub introspect : TokenService → IntrospectionRequest → Exec IntrospectionResponse
introspect s req = do
  identify_resource_server s req.client_id req.client_secret
  introspect_token s req.token
