-- ===== src/Oidc/TokenService/Revocation.antt =====
-- `HandleRevocation` of internal/oidc/token.go (RFC 7009).
use idpico.Prelude.{String, not, ◌&&◌, none, some, ◌==◌, if◌then◌else◌}
use idpico.Errors.{unauthorized}
use idpico.Domain.{Client, Token}
use idpico.Exec.{Exec, Done, pure, check, rethrow, branch, ◌>>=◌, ◌>>◌}
use idpico.Store.Clients
use idpico.Store.Tokens
use idpico.Store.Revocations
use idpico.Oidc.Types.{RevocationRequest, Claims}
use idpico.Oidc.ClientSecret.{authenticate_client}
use idpico.Oidc.TokenService.{TokenService}

-- Who calls: a client that is named, stored and authenticated.
unfoldable pub identify_caller : TokenService → String → String → Exec Client
identify_caller s client_id secret = do
  check (not (client_id == "")) (unauthorized "client authentication required")
  client ← rethrow (λ _. unauthorized "invalid client credentials") (Clients.get_by_id client_id)
  authentic ← authenticate_client s.crypto client secret
  check authentic (unauthorized "invalid client credentials")
  pure client

unfoldable pub revoke_refresh_token : RevocationRequest → Token → Exec Done
revoke_refresh_token req t =
    if not (req.client_id == "") && not (t.client_id == req.client_id)
    then pure tt
    else Tokens.revoke req.token

unfoldable pub revoke_claims : RevocationRequest → Claims → Exec Done
revoke_claims req claims = elim claims.expires_at [
  | none ↦ pure tt
  | some expires_at ↦
      if not (req.client_id == "") && not (claims.client_id == req.client_id)
      then pure tt
      else Revocations.revoke_access_token claims.id expires_at
]

unfoldable pub handle_revocation : TokenService → RevocationRequest → Exec Done
handle_revocation s req = do
  identify_caller s req.client_id req.client_secret
  branch (Tokens.get_by_id req.token) (revoke_refresh_token req) λ _.
      if s.revocations
      then branch (s.generator.validate_access_token req.token) (revoke_claims req) (λ _. pure tt)
      else pure tt
