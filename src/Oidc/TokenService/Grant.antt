-- ===== src/Oidc/TokenService/Grant.antt =====
-- The parts of internal/oidc/token.go that both grants use: lifetimes, the cutting off of a grant,
-- and the making of tokens.
use idpico.Prelude.{
  ℕ, ◌+◌, ◌/◌, String, Bool, true, false, not, ◌&&◌, ◌||◌, List, [], ◌∷◌, ◌==◌, ltb, if◌then◌else◌,
}
use idpico.Errors.{wrapped}
use idpico.Domain.{
  Time, unix, second, User, Client, Token, allows_grant, revocation_user_client, user_client_key,
}
use idpico.Exec.{Exec, Done, pure, rethrow, clock, new_uuid, ◌>>=◌, ◌>>◌}
use idpico.Store.Tokens
use idpico.Store.Revocations
use idpico.Oidc.Types.{TokenResponse, Claims, no_claims, Value, text, number, texts, set_extra}
use idpico.Oidc.Scope.{has_scope}
use idpico.Oidc.GroupClaims
use idpico.Oidc.TokenService.{TokenService}

-- The access and refresh lifetimes for a client.
unfoldable pub ttls_for : TokenService → Client → ℕ × ℕ
ttls_for s client = (
  if ltb 0 client.access_token_ttl then client.access_token_ttl else s.access_ttl,
  if ltb 0 client.refresh_token_ttl then client.refresh_token_ttl else s.refresh_ttl,
)

-- The loop of `revokeGrant`.
unfoldable pub revoke_each : String → List Token → Exec Done
revoke_each client_id [] = pure tt
revoke_each client_id (t ∷ ts) =
    let rest = revoke_each client_id ts in
    if not (t.client_id == client_id) || t.revoked then rest else (do Tokens.revoke t.id; rest)

unfoldable pub revoke_grant : TokenService → String → String → Exec Done
revoke_grant s user_id client_id = do
  found ← Tokens.list_by_user_id user_id
  revoke_each client_id found
  if s.revocations
      then (do
        now ← clock
        Revocations.revoke_before revocation_user_client (user_client_key user_id client_id) now)
      else pure tt

abbrev extra_if : Bool → String → Value → Claims → Claims
extra_if test name value claims = if test then set_extra name value claims else claims

unfoldable pub apply_scope_claims : User → String → Claims → Claims
apply_scope_claims user scope claims =
    let with_email =
      if has_scope scope "email"
      then record claims { email = user.email; email_verified = user.email_verified }
      else claims in
    if has_scope scope "profile"
    then extra_if (not (user.family_name == "")) "family_name" (text user.family_name) (
        extra_if (not (user.given_name == "")) "given_name" (text user.given_name)
          (record with_email { name = user.display_name }))
    else with_email

abbrev is_empty : List String → Bool
is_empty [] = true
is_empty (x ∷ xs) = false

-- The claims of the ID token before the groups.
unfoldable pub id_token_claims : User → Client → String → String → Time → List String → Claims
id_token_claims user client scope nonce auth_time amr =
    extra_if (not (is_empty amr)) "amr" (texts amr) (
      extra_if (ltb 0 auth_time) "auth_time" (number (unix auth_time)) (
        extra_if (not (nonce == "")) "nonce" (text nonce)
          (if client.minimal_id_token then no_claims else apply_scope_claims user scope no_claims)))

-- `&crypto.Claims{Scope: scope, ClientID: client.ID}`
abbrev access_token_claims : Client → String → Claims
access_token_claims client scope = record no_claims { scope = scope; client_id = client.id }

-- The refresh token's id, or the empty text where none is issued.
unfoldable pub issue_refresh_token : ℕ → User → Client → String → Exec String
issue_refresh_token refresh_ttl user client scope =
    if has_scope scope "offline_access" && allows_grant client "refresh_token"
    then (do
      id ← new_uuid
      now ← clock
      rethrow (wrapped "failed to create refresh token") (
          Tokens.create (record {
            id = id;
            user_id = user.id;
            client_id = client.id;
            scope = scope;
            created_at = 0;
            expires_at = now + refresh_ttl;
            revoked = false;
          }))
      pure id)
    else pure ""

unfoldable pub generate_tokens :
    TokenService → User → Client → String → String → Time → List String → Exec TokenResponse
generate_tokens s user client scope nonce auth_time amr = do
  let claims = id_token_claims user client scope nonce auth_time amr
  id_claims ←
      if client.minimal_id_token
      then pure claims
      else GroupClaims.apply s.group_claims user scope claims
  access_claims ← GroupClaims.apply s.group_claims user scope (access_token_claims client scope)
  let (access_ttl, refresh_ttl) = ttls_for s client
  id_token ←
      rethrow (wrapped "failed to generate ID token")
        (s.generator.generate_id_token_for user.id client.id access_ttl id_claims)
  access_token ←
      rethrow (wrapped "failed to generate access token")
        (s.generator.generate_access_token_with_claims user.id access_ttl access_claims)
  refresh_token ← issue_refresh_token refresh_ttl user client scope
  pure (record {
    access_token = access_token;
    token_type = "Bearer";
    expires_in = access_ttl / second;
    refresh_token = refresh_token;
    id_token = id_token;
    scope = scope;
  })
