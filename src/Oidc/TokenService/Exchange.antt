-- ===== src/Oidc/TokenService/Exchange.antt =====
-- `HandleAuthorizationCode` of internal/oidc/token.go.
use Prim.Native.String
use idpico.Prelude.{String, not, ◌==◌, if◌then◌else◌}
use idpico.Errors.{
  Error, is_code, code_not_found, code_conflict, invalid_input, invalid_grant, unauthorized,
  unauthorized_client, wrapped,
}
use idpico.Domain.{Client, AuthCode, User, is_expired, allows_grant}
use idpico.Exec.{Exec, Done, pure, raise, check, rethrow, branch, clock, ◌>>=◌, ◌>>◌}
use idpico.Store.Clients
use idpico.Store.AuthCodes
use idpico.Store.Users
use idpico.Oidc.Types.{TokenRequest, TokenResponse}
use idpico.Oidc.Pkce.{validate_code_verifier}
use idpico.Oidc.ClientSecret.{authenticate_client}
use idpico.Oidc.TokenService.{TokenService}
use idpico.Oidc.TokenService.Grant.{revoke_grant, generate_tokens}

abbrev grant_refused : String → Error
grant_refused grant_type =
    unauthorized_client (String.◌++◌ "client is not allowed the " (String.◌++◌ grant_type " grant"))

-- The caller is a client of the store, proves it, and may use the grant type.
unfoldable pub identify_client : TokenService → String → String → String → Exec Client
identify_client s client_id secret grant_type = do
  client ← rethrow (λ _. unauthorized "invalid client") (Clients.get_by_id client_id)
  authentic ← authenticate_client s.crypto client secret
  check authentic (unauthorized "invalid client credentials")
  check (allows_grant client grant_type) (grant_refused grant_type)
  pure client

abbrev reuse_error : Error
reuse_error = invalid_grant "code already used; all tokens for this client were revoked"

-- A code that is presented twice has leaked: the grant is cut off.
unfoldable pub code_reused : TokenService → AuthCode → Exec Done
code_reused s ac = do
  rethrow (wrapped "failed to revoke tokens after code reuse")
      (revoke_grant s ac.user_id ac.client_id)
  raise reuse_error

abbrev unknown_code : Error → Error
unknown_code e = if is_code e code_not_found then invalid_grant "invalid code" else e

unfoldable pub consume_code : TokenService → String → AuthCode → Exec Done
consume_code s code ac = branch (AuthCodes.mark_used code) pure λ e.
    if is_code e code_conflict
    then code_reused s ac
    else raise (wrapped "failed to mark code as used" e)

-- The checks on a code, up to its consumption.
unfoldable pub accept_code : TokenService → TokenRequest → AuthCode → Exec Done
accept_code s req ac = do
  check (ac.client_id == req.client_id) (invalid_grant "client_id mismatch")
  if ac.used then code_reused s ac else pure tt
  now ← clock
  check (not (is_expired now ac.expires_at)) (invalid_grant "code expired")
  check (ac.redirect_uri == req.redirect_uri) (invalid_grant "redirect_uri mismatch")
  check
      (validate_code_verifier s.crypto req.code_verifier ac.code_challenge ac.code_challenge_method)
      (invalid_grant "invalid code_verifier")
  consume_code s req.code ac

-- The user of a grant, who must not be disabled.
unfoldable pub active_user : String → Exec User
active_user user_id = do
  user ← rethrow (wrapped "failed to get user") (Users.get_by_id user_id)
  check user.active (invalid_grant "user account is disabled")
  pure user

unfoldable pub handle_authorization_code : TokenService → TokenRequest → Exec TokenResponse
handle_authorization_code s req = do
  check (not (req.code == "")) (invalid_input "code is required")
  check (not (req.redirect_uri == "")) (invalid_input "redirect_uri is required")
  client ← identify_client s req.client_id req.client_secret "authorization_code"
  ac ← rethrow unknown_code (AuthCodes.get_by_code req.code)
  accept_code s req ac
  user ← active_user ac.user_id
  generate_tokens s user client ac.scope ac.nonce ac.auth_time ac.amr
