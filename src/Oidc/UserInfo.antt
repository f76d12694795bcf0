-- ===== src/Oidc/UserInfo.antt =====
-- internal/oidc/userinfo.go: the userinfo endpoint, and the reading of a bearer token.
pub mod Disclosed
use idpico.Prelude.{
  String, Bool, true, false, List, [], ◌∷◌, Option, none, some, ◌==◌, cut, if◌then◌else◌,
}
use idpico.Errors.{Error, new, is_code, code_not_found, code_token_invalid, unauthorized}
use idpico.Domain.{User}
use idpico.Exec.{Exec, pure, raise, check, rethrow, ◌>>=◌, ◌>>◌}
use idpico.Store.Users
use idpico.Oidc.Types.{Crypto, TokenGenerator, Claims, Value, texts}
use idpico.Oidc.Scope.{has_scope}
use idpico.Oidc.GroupClaims.{group_names, default_groups_claim}
use idpico.Oidc.TokenService.Introspection.{access_token_revoked}

-- `groups` is `none` for a nil slice.
pub record UserInfoResponse : Type 0 where
  pub sub : String
  pub email : String
  pub email_verified : Bool
  pub name : String
  pub given_name : String
  pub family_name : String
  pub groups : Option (List String)
  pub extra : List (String × Value)

-- `group_claims` is the claim name of `GroupClaims`, or `none` for nil, and `revocations` tells
-- whether there is a revocation repository. `crypto` serves `crypto.IssuedAtOf` alone.
pub record UserInfoService : Type 0 where
  pub generator : TokenGenerator
  pub crypto : Crypto
  pub group_claims : Option String
  pub revocations : Bool

unfoldable pub effective_scope : Claims → String
effective_scope claims = if claims.scope == "" then "openid profile email" else claims.scope

-- The response before the groups are added.
unfoldable pub user_response : String → User → UserInfoResponse
user_response scope user = record {
  sub = user.id;
  email = if has_scope scope "email" then user.email else "";
  email_verified = if has_scope scope "email" then user.email_verified else false;
  name = if has_scope scope "profile" then user.display_name else "";
  given_name = if has_scope scope "profile" then user.given_name else "";
  family_name = if has_scope scope "profile" then user.family_name else "";
  groups = none;
  extra = [];
}

abbrev put_names : String → List String → UserInfoResponse → UserInfoResponse
put_names claim_name names response =
    if claim_name == default_groups_claim
    then record response { groups = some names }
    else record response { extra = (claim_name, texts names) ∷ [] }

unfoldable pub add_groups : Option String → String → User → UserInfoResponse → Exec UserInfoResponse
add_groups none scope user response = pure response
add_groups (some claim_name) scope user response =
    if has_scope scope "groups"
    then (do names ← group_names user.id; pure (put_names claim_name names response))
    else pure response

abbrev no_user : Error → Error
no_user e = if is_code e code_not_found then new code_not_found "user not found" else e

unfoldable pub respond : UserInfoService → Claims → Exec UserInfoResponse
respond s claims = do
  user ← rethrow no_user (Users.get_by_id claims.subject)
  check user.active (new code_token_invalid "user account is disabled")
  let scope = effective_scope claims
  add_groups s.group_claims scope user (user_response scope user)

unfoldable pub get_user_info : UserInfoService → String → Exec UserInfoResponse
get_user_info s access_token = do
  claims ←
      rethrow (λ _. new code_token_invalid "invalid access token")
        (s.generator.validate_access_token access_token)
  revoked ← access_token_revoked s.revocations s.crypto claims
  if revoked
      then raise (new code_token_invalid "access token has been revoked")
      else respond s claims

bearer_of : Option String → Exec String
bearer_of none = raise (unauthorized "invalid authorization header")
bearer_of (some token) = pure token

-- `authHeader[7:]` behind the prefix `Bearer `.
unfoldable pub extract_bearer_token : String → Exec String
unfolding bearer_of
extract_bearer_token auth_header =
    if auth_header == ""
    then raise (unauthorized "missing authorization header")
    else bearer_of (cut "Bearer " auth_header)

get_user_by_id : String → Exec User
get_user_by_id user_id = Users.get_by_id user_id
