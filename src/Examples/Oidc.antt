-- ===== src/Examples/Oidc.antt =====
-- Runs of the endpoints.
use idpico.Prelude.{
  ◌≤◌, ◌≡◌, refl, true, false, List, [], ◌∷◌, arith, fields, text_prefix, some, find,
}
use idpico.Prelude.{◌==◌, mem_text}
use idpico.Prelude.Int.{pos}
use idpico.Oidc.Authorize.Number.{atoi}
use idpico.Prelude.{◌*◌, ◌-◌, ◌||◌, ltb}
use idpico.Oidc.Authorize.FreshLogin.{requires_fresh_login-iff_older}
use idpico.Oidc.Authorize.{requires_fresh_login}
use idpico.Domain.{second, allows_grant, Consent, covers}
use idpico.World.{World}
use idpico.Exec.{ok, ◌>>=◌}
use idpico.Store.File.{load, save}
use idpico.Store.Clients
use idpico.Store.Users
use idpico.Store.AuthCodes
use idpico.Store.Tokens
use idpico.Store.Revocations
use idpico.Store.Sort.{newest_first}
use idpico.Store.Consents
use idpico.Store.Consents.{between}
use idpico.Oidc.Types.{TokenResponse}
use idpico.Oidc.Pkce.{validate_code_verifier}
use idpico.Oidc.Scope.{has_scope, scope_subset, union_scopes}
use idpico.Oidc.ClientSecret.{is_hashed_client_secret, verify_client_secret, authenticate_client}
use idpico.Oidc.GroupClaims
use idpico.Oidc.ConsentService.{grant}
use idpico.Oidc.ConsentService.Granted.{grant-covers, grant-keeps_covered}
use idpico.Oidc.Authorize.{validate_client, validate_request, read_max_age, has_prompt, scopes}
use idpico.Oidc.Authorize.Validated.{Valid, validate_client-ok}
use idpico.Oidc.Retired.{IsRetired}
use idpico.Oidc.TokenService.Grant
use idpico.Oidc.TokenService.Grant.{revoke_grant, revoke_each}
use idpico.Oidc.TokenService.Exchange.{
  identify_client, accept_code, active_user, consume_code, handle_authorization_code,
}
use idpico.Oidc.TokenService.Refresh.{
  accept_token, narrowed_scope, retire_token, handle_refresh_token,
}
use idpico.Oidc.TokenService.Exchanged.{Exchanged, handle_authorization_code-ok}
use idpico.Oidc.TokenService.Refreshed.{Refreshed, handle_refresh_token-ok}
use idpico.Oidc.TokenService.CutOff.{revoke_grant-retires, revoke_grant-rejects}
use idpico.Store.Revocations.Rejection.{rejected}
use idpico.Oidc.History.{Event, exchange, refresh, total, redeems, renews}
use idpico.Oidc.History.CodeOnce.{redemptions-le-one}
use idpico.Oidc.History.TokenOnce.{renewals-le-one}
use idpico.Examples.{
  AuthorizeRequest, service, start, code_request, refresh_request, authorize_request, web,
  allowed_before, first_token, plain_generator,
}

-- The same code twice, the second time with a read that fails, and the token twice.
abbrev history : List Event
history =
    record { elapsed = 1; faults = []; request = exchange code_request }
    ∷ record { elapsed = 1; faults = false ∷ true ∷ []; request = exchange code_request }
    ∷ record { elapsed = 1; faults = []; request = refresh refresh_request }
    ∷ record { elapsed = 1; faults = []; request = refresh refresh_request }
    ∷ []

redemptions-le-one_example : total service (redeems "code-1") history start ≤ 1
redemptions-le-one_example = redemptions-le-one service "code-1" history start

renewals-le-one_example : total service (renews "refresh-1") history start ≤ 1
renewals-le-one_example = renewals-le-one service "refresh-1" history start

abbrev after_exchange : World
after_exchange = (handle_authorization_code service code_request start).1

abbrev exchange_reply : TokenResponse
exchange_reply = record {
  access_token = "access token of alice";
  token_type = "Bearer";
  expires_in = 900;
  refresh_token = "refresh-2";
  id_token = "id token of alice";
  scope = "openid offline_access";
}

exchange_test :
    handle_authorization_code service code_request start ≡ (ok exchange_reply, after_exchange)
unfolding handle_authorization_code identify_client accept_code active_user consume_code ◌>>=◌ load
    save Clients.get_by_id Users.get_by_id AuthCodes.get_by_code AuthCodes.mark_used
    authenticate_client verify_client_secret is_hashed_client_secret text_prefix allows_grant
    validate_code_verifier Grant.generate_tokens Grant.issue_refresh_token Grant.id_token_claims
    Grant.ttls_for Grant.apply_scope_claims GroupClaims.apply has_scope fields Tokens.create
    plain_generator
exchange_test = refl

handle_authorization_code-ok_example :
    Exchanged service code_request start exchange_reply after_exchange
handle_authorization_code-ok_example =
    handle_authorization_code-ok service code_request start exchange_test

abbrev after_refresh : World
after_refresh = (handle_refresh_token service refresh_request start).1

abbrev refresh_reply : TokenResponse
refresh_reply = record {
  access_token = "access token of alice";
  token_type = "Bearer";
  expires_in = 900;
  refresh_token = "";
  id_token = "id token of alice";
  scope = "openid";
}

refresh_test :
    handle_refresh_token service refresh_request start ≡ (ok refresh_reply, after_refresh)
unfolding handle_refresh_token identify_client accept_token active_user narrowed_scope retire_token
    ◌>>=◌ load save Clients.get_by_id Users.get_by_id Tokens.get_by_id Tokens.rotate
    authenticate_client verify_client_secret is_hashed_client_secret text_prefix allows_grant
    scope_subset Grant.generate_tokens Grant.issue_refresh_token Grant.id_token_claims
    Grant.ttls_for Grant.apply_scope_claims GroupClaims.apply has_scope fields Tokens.create
    plain_generator
refresh_test = refl

handle_refresh_token-ok_example :
    Refreshed service refresh_request start refresh_reply after_refresh
handle_refresh_token-ok_example = handle_refresh_token-ok service refresh_request start refresh_test

abbrev after_cut : World
after_cut = (revoke_grant service "alice" "web" start).1

cut_test : revoke_grant service "alice" "web" start ≡ (ok tt, after_cut)
unfolding revoke_grant revoke_each ◌>>=◌ load save Tokens.list_by_user_id newest_first Tokens.revoke
    Revocations.revoke_before Revocations.upsert
cut_test = refl

revoke_grant-retires_example : IsRetired "refresh-1" after_cut.store after_cut.now
revoke_grant-retires_example =
    revoke_grant-retires service "alice" "web" first_token start refl refl refl (omega arith)
      cut_test

revoke_grant-rejects_example : rejected after_cut "token-1" "alice" "web" 60 ≡ true
revoke_grant-rejects_example =
    revoke_grant-rejects service "alice" "web" "token-1" 60 start refl (omega arith) cut_test

abbrev after_validation : World
after_validation = (validate_client authorize_request start).1

validation_test :
    validate_client authorize_request start
    ≡ (ok (web, record authorize_request { max_age = pos 300 }), after_validation)
unfolding validate_client validate_request read_max_age atoi has_prompt scopes fields allows_grant
    ◌>>=◌ load Clients.get_by_id
validation_test = refl

validate_client-ok_example :
    (find (λ c. c.id == "web") start.clients ≡ some web)
    × (mem_text "https://web.example/cb" web.redirect_uris ≡ true)
    × Valid web authorize_request (record authorize_request { max_age = pos 300 })
validate_client-ok_example = validate_client-ok authorize_request start validation_test

abbrev after_grant : World
after_grant = (grant "alice" "web" ("email" ∷ []) start).1

grant_test : grant "alice" "web" ("email" ∷ []) start ≡ (ok tt, after_grant)
unfolding grant ◌>>=◌ load save Consents.get Consents.upsert union_scopes
grant_test = refl

covered_before : covers allowed_before ("openid" ∷ []) ≡ true
unfolding covers
covered_before = refl

grant-covers_example :
    (c : Consent) × (find (between "alice" "web") after_grant.consents ≡ some c)
    × (covers c ("email" ∷ []) ≡ true)
grant-covers_example = grant-covers "alice" "web" ("email" ∷ []) start grant_test

grant-keeps_covered_example :
    (c : Consent) × (find (between "alice" "web") after_grant.consents ≡ some c)
    × (covers c ("openid" ∷ []) ≡ true)
grant-keeps_covered_example =
    grant-keeps_covered "alice" "web" ("email" ∷ []) ("openid" ∷ []) allowed_before start refl
      covered_before grant_test

abbrev aged : AuthorizeRequest
aged = record authorize_request { max_age = pos 300 }

quiet : (has_prompt aged "login" || has_prompt aged "select_account") ≡ false
unfolding has_prompt
quiet = refl

requires_fresh_login-iff_older_example :
    requires_fresh_login aged (400 * second) (90 * second)
    ≡ ltb (300 * second) (400 * second - 90 * second)
requires_fresh_login-iff_older_example =
    requires_fresh_login-iff_older aged 300 (400 * second) (90 * second) quiet refl (omega arith)
      (omega arith) (omega arith)
