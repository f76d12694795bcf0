-- ===== src/Oidc/TokenService/Refresh.antt =====
-- `HandleRefreshToken` of internal/oidc/token.go.
use idpico.Prelude.{String, not, ◌&&◌, [], ◌==◌, if◌then◌else◌}
use idpico.Errors.{
  Error, is_code, code_not_found, code_conflict, invalid_input, invalid_grant, invalid_scope,
  wrapped,
}
use idpico.Domain.{Token, is_expired, is_valid}
use idpico.Exec.{Exec, Done, pure, raise, check, rethrow, branch, clock, ◌>>=◌, ◌>>◌}
use idpico.Store.Tokens
use idpico.Oidc.Types.{TokenRequest, TokenResponse}
use idpico.Oidc.Scope.{scope_subset}
use idpico.Oidc.TokenService.{TokenService}
use idpico.Oidc.TokenService.Grant.{revoke_grant, generate_tokens}
use idpico.Oidc.TokenService.Exchange.{identify_client, active_user}

abbrev reuse_error : Error
reuse_error =
    invalid_grant "refresh_token has already been used; all tokens for this client were revoked"

-- A retired refresh token that comes back has leaked: the grant is cut off.
unfoldable pub token_reused : TokenService → Token → Exec Done
token_reused s t = do
  rethrow (wrapped "failed to revoke tokens after refresh token reuse")
      (revoke_grant s t.user_id t.client_id)
  raise reuse_error

abbrev unknown_token : Error → Error
unknown_token e = if is_code e code_not_found then invalid_grant "invalid refresh_token" else e

unfoldable pub accept_token : TokenService → TokenRequest → Token → Exec Done
accept_token s req t = do
  check (t.client_id == req.client_id) (invalid_grant "client_id mismatch")
  now ← clock
  if t.revoked && not (is_expired now t.expires_at) then token_reused s t else pure tt
  check (is_valid now t) (invalid_grant "refresh_token is invalid or expired")

-- A requested scope may narrow the scope of the grant.
unfoldable pub narrowed_scope : String → String → Exec String
narrowed_scope requested granted = if requested == "" then pure granted else (do
  check (scope_subset requested granted)
      (invalid_scope "requested scope exceeds the scope of the refresh token")
  pure requested)

unfoldable pub retire_token : TokenService → String → Token → Exec Done
retire_token s id t = branch (Tokens.rotate id) pure λ e.
    if is_code e code_conflict
    then token_reused s t
    else raise (wrapped "failed to rotate old token" e)

unfoldable pub handle_refresh_token : TokenService → TokenRequest → Exec TokenResponse
handle_refresh_token s req = do
  check (not (req.refresh_token == "")) (invalid_input "refresh_token is required")
  client ← identify_client s req.client_id req.client_secret "refresh_token"
  t ← rethrow unknown_token (Tokens.get_by_id req.refresh_token)
  accept_token s req t
  user ← active_user t.user_id
  scope ← narrowed_scope req.scope t.scope
  retire_token s req.refresh_token t
  generate_tokens s user client scope "" 0 []
