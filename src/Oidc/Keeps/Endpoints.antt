-- ===== src/Oidc/Keeps/Endpoints.antt =====
-- The endpoints of internal/oidc keep what survives their writes.
use idpico.Prelude.{ℕ, String, Bool, List, Option-cases, inl, inr}
use idpico.World.{Store}
use idpico.Domain.{AuthCode, Token, Time}
use idpico.Exec.Keeps.{Keeps, keeps_rules, Keeps-save}
use idpico.Store.Revocations
use idpico.Oidc.Types.{Crypto, Claims, TokenRequest, RevocationRequest}
use idpico.Oidc.TokenService.{TokenService}
use idpico.Oidc.TokenService.Exchange.{
  code_reused, consume_code, accept_code, handle_authorization_code,
}
use idpico.Oidc.TokenService.Refresh.{
  token_reused, accept_token, narrowed_scope, retire_token, handle_refresh_token,
}
use idpico.Oidc.TokenService.Revocation.{
  identify_caller, revoke_refresh_token, revoke_claims, handle_revocation,
}
use idpico.Oidc.TokenService.Introspection.{
  introspect_valid_token, IntrospectionRequest, access_token_revoked, user_active,
  introspect_access_token, introspect_refresh_token, introspect_token, introspect,
}
use idpico.Oidc.Authorize.{AuthorizeRequest, create_auth_code}
use idpico.Oidc.Keeps.{
  Survives, Keeps-Same, client-Keeps, token-Keeps, code-Keeps, user-Keeps, active_user-Keeps,
  authenticate_client-Keeps, identify_client-Keeps, identify_resource_server-Keeps,
  revoke_grant-Keeps, generate_tokens-Keeps,
}

module _ {P : Store → Time → Type 0} (v : Survives P) where
  open v use {
    on_create_token, on_clients, on_revoke, on_rotate, on_mark_used, on_create_code, on_revocations,
  }

  code_reused-Keeps : (s : TokenService) (ac : AuthCode) → Keeps P (code_reused s ac)
  unfolding code_reused
  code_reused-Keeps s ac = search (keeps_rules, revoke_grant-Keeps v)

  consume_code-Keeps :
      (s : TokenService) (code : String) (ac : AuthCode) → Keeps P (consume_code s code ac)
  unfolding consume_code
  consume_code-Keeps s code ac = search (keeps_rules, code_reused-Keeps, on_mark_used)

  accept_code-Keeps :
      (s : TokenService) (req : TokenRequest) (ac : AuthCode) → Keeps P (accept_code s req ac)
  unfolding accept_code
  accept_code-Keeps s req ac = search (keeps_rules, code_reused-Keeps, consume_code-Keeps) depth 15

  pub handle_authorization_code-Keeps :
      (s : TokenService) (req : TokenRequest) → Keeps P (handle_authorization_code s req)
  unfolding handle_authorization_code
  handle_authorization_code-Keeps s req =
      search
        (
          keeps_rules,
          identify_client-Keeps on_clients,
          code-Keeps,
          accept_code-Keeps,
          active_user-Keeps,
          generate_tokens-Keeps on_create_token,
        )
        depth 15

  token_reused-Keeps : (s : TokenService) (t : Token) → Keeps P (token_reused s t)
  unfolding token_reused
  token_reused-Keeps s t = search (keeps_rules, revoke_grant-Keeps v)

  accept_token-Keeps :
      (s : TokenService) (req : TokenRequest) (t : Token) → Keeps P (accept_token s req t)
  unfolding accept_token
  accept_token-Keeps s req t = search (keeps_rules, token_reused-Keeps) depth 15

  narrowed_scope-Keeps : (requested granted : String) → Keeps P (narrowed_scope requested granted)
  unfolding narrowed_scope
  narrowed_scope-Keeps requested granted = search keeps_rules

  retire_token-Keeps : (s : TokenService) (id : String) (t : Token) → Keeps P (retire_token s id t)
  unfolding retire_token
  retire_token-Keeps s id t = search (keeps_rules, token_reused-Keeps, on_rotate)

  pub handle_refresh_token-Keeps :
      (s : TokenService) (req : TokenRequest) → Keeps P (handle_refresh_token s req)
  unfolding handle_refresh_token
  handle_refresh_token-Keeps s req =
      search
        (
          keeps_rules,
          identify_client-Keeps on_clients,
          token-Keeps,
          accept_token-Keeps,
          active_user-Keeps,
          narrowed_scope-Keeps,
          retire_token-Keeps,
          generate_tokens-Keeps on_create_token,
        )
        depth 15

  identify_caller-Keeps :
      (s : TokenService) (id secret : String) → Keeps P (identify_caller s id secret)
  unfolding identify_caller
  identify_caller-Keeps s id secret =
      search (keeps_rules, client-Keeps, authenticate_client-Keeps on_clients) depth 15

  revoke_refresh_token-Keeps :
      (req : RevocationRequest) (t : Token) → Keeps P (revoke_refresh_token req t)
  unfolding revoke_refresh_token
  revoke_refresh_token-Keeps req t = search (keeps_rules, on_revoke)

  revoke_jti-Keeps : (jti : String) (t : Time) → Keeps P (Revocations.revoke_access_token jti t)
  unfolding Revocations.revoke_access_token Revocations.upsert
  revoke_jti-Keeps jti t = search (keeps_rules, Keeps-save, on_revocations)

  validate-Keeps :
      (s : TokenService) (token : String) → Keeps P (s.generator.validate_access_token token)
  validate-Keeps s token = Keeps-Same _ (s.generator.validate_same token)

  revoke_claims-Keeps : (req : RevocationRequest) (c : Claims) → Keeps P (revoke_claims req c)
  unfolding revoke_claims
  revoke_claims-Keeps req c = elim (Option-cases c.expires_at) [
    | inl e ↦ rw (e, revoke_claims) (search keeps_rules)
    | inr (t, e) ↦ rw (e, revoke_claims) (search (keeps_rules, revoke_jti-Keeps))
  ]

  pub handle_revocation-Keeps :
      (s : TokenService) (req : RevocationRequest) → Keeps P (handle_revocation s req)
  unfolding handle_revocation
  handle_revocation-Keeps s req =
      search
        (
          keeps_rules, identify_caller-Keeps, token-Keeps, revoke_refresh_token-Keeps,
          validate-Keeps, revoke_claims-Keeps,
        )
        depth 15

  pub create_auth_code-Keeps :
      (ttl : ℕ) (req : AuthorizeRequest) (user : String) (at : Time) (amr : List String)
      → Keeps P (create_auth_code ttl req user at amr)
  unfolding create_auth_code
  create_auth_code-Keeps ttl req user at amr = search (keeps_rules, on_create_code) depth 9

  access_token_revoked-Keeps :
      (enabled : Bool) (c : Crypto) (claims : Claims)
      → Keeps P (access_token_revoked enabled c claims)
  unfolding access_token_revoked Revocations.is_revoked
  access_token_revoked-Keeps enabled c claims = search keeps_rules depth 9

  user_active-Keeps : (id : String) → Keeps P (user_active id)
  unfolding user_active
  user_active-Keeps id = search (keeps_rules, user-Keeps)

  introspect_access_token-Keeps :
      (s : TokenService) (c : Claims) → Keeps P (introspect_access_token s c)
  unfolding introspect_access_token
  introspect_access_token-Keeps s c =
      search (keeps_rules, access_token_revoked-Keeps, user_active-Keeps) depth 9

  introspect_valid_token-Keeps : (t : Token) → Keeps P (introspect_valid_token t)
  unfolding introspect_valid_token
  introspect_valid_token-Keeps t = search (keeps_rules, user_active-Keeps, user-Keeps) depth 9

  introspect_refresh_token-Keeps : (t : Token) → Keeps P (introspect_refresh_token t)
  unfolding introspect_refresh_token
  introspect_refresh_token-Keeps t = search (keeps_rules, introspect_valid_token-Keeps) depth 9

  introspect_token-Keeps : (s : TokenService) (token : String) → Keeps P (introspect_token s token)
  unfolding introspect_token
  introspect_token-Keeps s token =
      search
        (
          keeps_rules, validate-Keeps, token-Keeps, introspect_access_token-Keeps,
          introspect_refresh_token-Keeps,
        )
        depth 9

  pub introspect-Keeps :
      (s : TokenService) (req : IntrospectionRequest) → Keeps P (introspect s req)
  unfolding introspect
  introspect-Keeps s req =
      search (keeps_rules, identify_resource_server-Keeps on_clients, introspect_token-Keeps)
