-- ===== src/Examples/Introspection.antt =====
-- Introspection of the refresh token by its client.
use idpico.Prelude.{◌≡◌, refl, true, text_prefix}
use idpico.World.{World}
use idpico.Exec.{ok, ◌>>=◌}
use idpico.Store.File.{load}
use idpico.Store.Clients
use idpico.Store.Users
use idpico.Store.Tokens
use idpico.Oidc.ClientSecret.{is_hashed_client_secret, verify_client_secret, authenticate_client}
use idpico.Oidc.TokenService.Introspection.{
  IntrospectionRequest, IntrospectionResponse, report_refresh_token, user_active,
  introspect_valid_token, introspect_refresh_token, identify_resource_server, introspect_token,
  introspect,
}
use idpico.Oidc.TokenService.Introspected.{Introspected, introspect-active}
use idpico.Examples.{service, start, first_token, plain_generator}

abbrev question : IntrospectionRequest
question = record {
  token = "refresh-1";
  token_type_hint = "";
  client_id = "web";
  client_secret = "secret";
}

abbrev answer : IntrospectionResponse
answer = report_refresh_token first_token "alice@example.org"

abbrev after : World
after = (introspect service question start).1

introspect_test : introspect service question start ≡ (ok answer, after)
unfolding introspect identify_resource_server introspect_token introspect_refresh_token
    introspect_valid_token user_active report_refresh_token ◌>>=◌ load Clients.get_by_id
    Users.get_by_id Tokens.get_by_id authenticate_client verify_client_secret
    is_hashed_client_secret text_prefix plain_generator
introspect_test = refl

answer_active : answer.active ≡ true
unfolding report_refresh_token
answer_active = refl

introspect-active_example : Introspected service question start answer
introspect-active_example = introspect-active service question start introspect_test answer_active
