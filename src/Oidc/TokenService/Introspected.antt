-- ===== src/Oidc/TokenService/Introspected.antt =====
-- When introspection reports a token as active.
pub mod Reports
use idpico.Prelude.{
  sym, ◌⊎◌, inl, inr, String, Bool, true, false, not-true, ◌&&◌, ◌≡◌, ap, subst, ◌∙◌, some, ◌==◌,
  find, any, ltb, leb, Bool-cases, arith, refl,
}
use idpico.Domain.{Client, Token, User, Time, is_valid}
use idpico.World.{Store, World}
use idpico.Exec.{Exec, Result, ok}
use idpico.Exec.Inversion.{
  Same, Same-trans, Same-refl, bind-ok, check-ok, clock-ok, pure-ok, rethrow-ok, branch-cases,
}
use idpico.Store.File.{revocations, load-ok}
use idpico.Store.Fetch.{client-fetched, token-fetched, user-fetched}
use idpico.Store.Revocations
use idpico.Store.Users
use idpico.Store.Tokens
use idpico.Store.Revocations.Rejection.{rejected}
use idpico.Oidc.Types.{Claims, Crypto}
use idpico.Oidc.ClientSecret.{verify_client_secret}
use idpico.Oidc.Keeps.{identify_resource_server-Keeps}
use idpico.Oidc.TokenService.{TokenService}
use idpico.Oidc.TokenService.Caller.{
  IsAuthentic, authenticate_client-IsAuthentic, Rest, Rest-clients, Rest-refl,
}
use idpico.Oidc.TokenService.Introspection.{
  IntrospectionRequest, IntrospectionResponse, access_token_revoked, user_active, inactive,
  report_access_token, report_refresh_token, introspect_access_token, introspect_refresh_token,
  identify_resource_server, introspect_token, introspect,
}
use idpico.Oidc.TokenService.Introspected.Reports.{
  AccessToken, RefreshToken, revoked_in, introspect_access_token-ok, introspect_refresh_token-ok,
  Same-after, not_inactive, IsEnabled, IsEnabled-before,
}

introspect_token-ok :
    (s : TokenService) (token : String) (u w : World) {resp : IntrospectionResponse} {w' : World}
    → Rest u.store u.now w.store w.now
    → introspect_token s token w ≡ (ok resp, w')
    → resp.active ≡ true
    → (at : World) × Rest u.store u.now at.store at.now
      × (AccessToken s token at resp ⊎ RefreshToken token at resp)
unfolding introspect_token
introspect_token-ok s token u w {resp} rest h on =
    elim (branch-cases (s.generator.validate_access_token token) _ _ w h) [
      | inl (c, v, q, g) ↦
          let same =
            Same-after (s.generator.validate_access_token token) (s.generator.validate_same token w)
              q in
          let (good, enabled, report) = introspect_access_token-ok s c v g on in
          let access : AccessToken s token w resp = record {
            claims = c;
            valid = rw q refl;
            not_revoked =
                ap (λ (x : Store). revoked_in s.revocations s.crypto x c) (sym same.store) ∙ good;
            enabled = IsEnabled-before c.subject same enabled;
            report = report;
          } in
          (w, rest, inl access)
      | inr (e, v, q, g) ↦ elim (branch-cases (Tokens.get_by_id token) _ _ v g) [
        | inl (t, v', f, k) ↦
            let (found, same') = token-fetched token v f in
            let same =
              Same-trans
                (Same-after (s.generator.validate_access_token token)
                  (s.generator.validate_same token w) q)
                same' in
            let (valid, enabled, report) = introspect_refresh_token-ok t v' k on in
            let refresh : RefreshToken token v' resp = record {
              token = t;
              stored = ap (λ (x : Store). find (λ t. t.id == token) x.tokens) same'.store ∙ found;
              valid = valid;
              enabled = enabled;
              report = report;
            } in
            (v', rw (same.store, same.now) rest, inr refresh)
        | inr (e', v', f, k) ↦ let (r', _) = pure-ok inactive v' k in absurd (not_inactive r' on)
      ]
    ]

identify_resource_server-Rest :
    (s : TokenService) (id secret : String) (w : World)
    → let w' = (identify_resource_server s id secret w).1 in Rest w.store w.now w'.store w'.now
unfolding identify_resource_server
identify_resource_server-Rest s id secret w =
    (identify_resource_server-Keeps (Rest-clients w.store w.now) s id secret).at w (Rest-refl w)

secret_of :
    (c : Crypto) (client : Client) (secret : String)
    → IsAuthentic c client secret
    → client.public ≡ false
    → (verify_client_secret c client.secret secret).0 ≡ true
secret_of c client secret (inl public) confidential = absurd (ground arith)
secret_of c client secret (inr matches) confidential = matches

identify_resource_server-ok :
    (s : TokenService) (id secret : String) (w : World) {client : Client} {w' : World}
    → identify_resource_server s id secret w ≡ (ok client, w')
    → (find (λ c. c.id == id) w.clients ≡ some client)
      × (client.public ≡ false)
      × ((verify_client_secret s.crypto client.secret secret).0 ≡ true)
      × Rest w.store w.now w'.store w'.now
unfolding identify_resource_server
identify_resource_server-ok s id secret w {client} {w'} h =
    let (_, w₀, c₀, h₀) = bind-ok _ _ w h in
    let e₀ = (check-ok _ _ w c₀).1 in
    let (c, w₁, f, h₁) = bind-ok _ _ w₀ h₀ in
    let (found, same) = client-fetched id w₀ (rethrow-ok _ _ w₀ f) in
    let (_, w₂, p, h₂) = bind-ok _ _ w₁ h₁ in
    let confidential = not-true _ (check-ok _ _ w₁ p).0 in
    let (b, w₃, a, h₃) = bind-ok _ _ w₂ h₂ in
    let (_, w₄, t, h₄) = bind-ok _ _ w₃ h₃ in
    let (authentic, _) = check-ok b _ w₃ t in
    let (same_client, _) = pure-ok c w₄ h₄ in
    (
      rw (same_client, ← e₀) found,
      rw same_client confidential,
      rw same_client (
          secret_of s.crypto c secret
            (authenticate_client-IsAuthentic s.crypto c secret w₂ (rw authentic at a))
            confidential),
      subst (λ (v : World). Rest w.store w.now v.store v.now) (ap (λ r. r.1) h)
          (identify_resource_server-Rest s id secret w),
    )

-- What an active answer tells. The claims and the token are read when the caller is authenticated,
-- which changes at most the file of the clients.
pub record Introspected (s : TokenService) (req : IntrospectionRequest) (w : World)
    (resp : IntrospectionResponse) : Type 0 where
  pub client : Client
  pub client_stored : find (λ c. c.id == req.client_id) w.clients ≡ some client
  pub confidential : client.public ≡ false
  pub authentic : (verify_client_secret s.crypto client.secret req.client_secret).0 ≡ true
  pub at : World
  pub rest : Rest w.store w.now at.store at.now
  pub token : AccessToken s req.token at resp ⊎ RefreshToken req.token at resp

-- A token is reported as active only to a stored, confidential and authenticated client, and only
-- if it is an access token that the generator accepts, whose subject is enabled, and that no stored
-- revocation rejects, where the service keeps revocations and the token has a time of issue (without
-- either the revocations are not consulted), or a refresh token that is stored, not revoked and in
-- time and whose user is enabled; and then the answer is the report on that token.
pub introspect-active :
    (s : TokenService) (req : IntrospectionRequest) (w : World) {resp : IntrospectionResponse}
    {w' : World}
    → introspect s req w ≡ (ok resp, w')
    → resp.active ≡ true
    → Introspected s req w resp
unfolding introspect
introspect-active s req w h on =
    let (client, w₁, c, h₁) = bind-ok _ _ w h in
    let (stored, confidential, authentic, rest) =
      identify_resource_server-ok s req.client_id req.client_secret w c in
    let (at, rest', token) = introspect_token-ok s req.token w w₁ rest h₁ on in
    record {
      client = client;
      client_stored = stored;
      confidential = confidential;
      authentic = authentic;
      at = at;
      rest = rest';
      token = token;
    }
