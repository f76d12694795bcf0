-- ===== src/Examples/Endpoints.antt =====
-- The token, userinfo and logout endpoints, and a run of the maintenance.
use idpico.Prelude.{◌≡◌, refl, true, false, none, some, [], ◌∷◌}
use Prim.Native.String
use idpico.Prelude.{text_prefix, fields}
use idpico.Domain.{allows_grant}
use idpico.Store.File.{load, save}
use idpico.Store.Clients
use idpico.Store.Users
use idpico.Store.Tokens
use idpico.Http.Requests
use idpico.Http.Endpoints.{serve_grant, token_answer}
use idpico.Oidc.Scope.{has_scope, scope_subset}
use idpico.Oidc.GroupClaims
use idpico.Oidc.GroupClaims.{group_names}
use idpico.Oidc.ClientSecret.{authenticate_client, verify_client_secret, is_hashed_client_secret}
use idpico.Oidc.TokenService.Grant
use idpico.Oidc.TokenService.Exchange.{identify_client, active_user}
use idpico.Oidc.TokenService.Refresh.{
  accept_token, narrowed_scope, retire_token, handle_refresh_token,
}
use idpico.Oidc.TokenService.Introspection.{access_token_revoked}
use idpico.Oidc.UserInfo.{respond, effective_scope, user_response, add_groups}
use idpico.Oidc.Logout.{named_client, hinted_client, registered_redirect, with_state}
use idpico.Prelude.Table.{put_at, get_at}
use idpico.World.{World}
use idpico.Exec.{ok, pure, ◌>>=◌}
use idpico.Exec.Inversion.{Same-refl}
use idpico.Oidc.Types.{Claims, no_claims, TokenGenerator, TokenResponse}
use idpico.Oidc.TokenService.{TokenService}
use idpico.Oidc.UserInfo.{UserInfoService, UserInfoResponse, get_user_info}
use idpico.Oidc.UserInfo.Disclosed.{Disclosed, get_user_info-ok}
use idpico.Oidc.Logout.{
  with_state, registered_redirect, hinted_client, named_client, UrlPackage, post_logout_redirect,
}
use idpico.Oidc.Logout.Redirected.{Redirected, post_logout_redirect-ok}
use idpico.Http.Requests.{credentials, parse_token_request, FormRequest}
use idpico.Http.Endpoints.{OidcHandler, Response, tokens, token}
use idpico.Http.Endpoints.Answers.{IsAnswer, token-IsAnswer, Granted, token-tokens}
use idpico.Maintenance.{KeyService, Runner, run_once}
use idpico.Maintenance.Unexpired.{Remains, run_once-Remains}
use idpico.Domain.{Session, VerificationToken}
use idpico.Examples.{service, start, plain_generator, plain_crypto}

-- Every token is one of Alice's, for her address.
abbrev alices : Claims
alices = record no_claims {
  subject = "alice";
  scope = "openid email";
  client_id = "web";
  audience = "web" ∷ [];
}

reading_generator : TokenGenerator
unfolding pure
reading_generator = record plain_generator {
  validate_access_token = λ t. pure alices;
  parse_id_token_hint = λ t. pure alices;
  validate_same = λ t w. Same-refl w;
  hint_same = λ t w. Same-refl w;
}

abbrev user_infos : UserInfoService
user_infos = record {
  generator = reading_generator;
  crypto = plain_crypto;
  group_claims = some "groups";
  revocations = true;
}

abbrev disclosed : UserInfoResponse
disclosed = record {
  sub = "alice";
  email = "alice@example.org";
  email_verified = true;
  name = "";
  given_name = "";
  family_name = "";
  groups = none;
  extra = [];
}

told : get_user_info user_infos "token" start ≡ (ok disclosed, start)
unfolding get_user_info access_token_revoked respond effective_scope user_response add_groups
    has_scope fields group_names ◌>>=◌ load Users.get_by_id reading_generator pure
told = refl

get_user_info-ok_example : Disclosed user_infos "token" start disclosed
get_user_info-ok_example = get_user_info-ok user_infos "token" start told

-- A URL that is its text.
abbrev plain_urls : UrlPackage
plain_urls = record {
  parse = λ t. some (record { front = t; raw_query = ""; behind = "" });
  print = λ u. String.◌++◌ u.front u.raw_query;
  query = λ q. [];
  encode = λ t. "?state=state-1";
}

abbrev hinting : TokenService
hinting = record service { generator = reading_generator }

sent_on :
    post_logout_redirect plain_urls hinting "hint" "web" "https://web.example/cb" "state-1" start
    ≡ (ok "https://web.example/cb?state=state-1", start)
unfolding post_logout_redirect named_client hinted_client registered_redirect with_state ◌>>=◌ load
    Clients.get_by_id put_at reading_generator pure
sent_on = refl

post_logout_redirect-ok_example :
    Redirected plain_urls hinting "hint" "web" "https://web.example/cb" "state-1" start
      "https://web.example/cb?state=state-1"
post_logout_redirect-ok_example =
    post_logout_redirect-ok plain_urls hinting "hint" "web" "https://web.example/cb" "state-1" start
      sent_on

abbrev handler : OidcHandler
handler = record {
  tokens = service;
  user_infos = user_infos;
  decode_base64 = λ t. some "web:secret";
}

abbrev posted : FormRequest
posted = record {
  method = "POST";
  form =
      some (
        ("grant_type", "refresh_token")
        ∷ ("refresh_token", "refresh-1")
        ∷ ("scope", "openid")
        ∷ []);
  post_form = [];
  authorization = "Basic d2ViOnNlY3JldA==";
  content_type = true;
}

token-IsAnswer_example : IsAnswer (token handler posted start).0
token-IsAnswer_example = token-IsAnswer handler posted start

abbrev given : TokenResponse
given = record {
  access_token = "access token of alice";
  token_type = "Bearer";
  expires_in = 900;
  refresh_token = "";
  id_token = "id token of alice";
  scope = "openid";
}

abbrev answer : Response
answer = record { status = 200; body = tokens given; challenge = ""; cacheable = false }

abbrev after_post : World
after_post = (token handler posted start).1

token_test : token handler posted start ≡ (answer, after_post)
unfolding token Requests.parse_token_request Requests.credentials get_at serve_grant token_answer
    handle_refresh_token identify_client accept_token active_user narrowed_scope retire_token ◌>>=◌
    load save Clients.get_by_id Users.get_by_id Tokens.get_by_id Tokens.rotate authenticate_client
    verify_client_secret is_hashed_client_secret text_prefix allows_grant scope_subset
    Grant.generate_tokens Grant.issue_refresh_token Grant.id_token_claims Grant.ttls_for
    Grant.apply_scope_claims GroupClaims.apply has_scope fields Tokens.create plain_generator
token_test = refl

token-tokens_example : (posted.method ≡ "POST") × Granted handler posted start given after_post
token-tokens_example = token-tokens handler posted start token_test refl

abbrev stored_session : Session
stored_session = record {
  id = "session-1";
  user_id = "alice";
  created_at = 1;
  expires_at = 900;
  user_agent = "";
  ip_address = "";
  amr = [];
}

abbrev stored_link : VerificationToken
stored_link = record {
  token_hash = "h";
  user_id = "alice";
  purpose = "";
  created_at = 1;
  expires_at = 900;
  used = false;
}

abbrev stocked : World
stocked = record start {
  store = record start.store {
    sessions = stored_session ∷ [];
    revocations = record { kind = "jti"; key = "id"; not_before = 0; expires_at = 900 } ∷ [];
    verification_tokens = stored_link ∷ [];
  };
  faults = false ∷ false ∷ false ∷ true ∷ [];
}

abbrev key_service : KeyService
unfolding pure
key_service = record {
  should_rotate = λ max_age. pure true;
  rotate_key = λ grace. pure "key-2";
  cleanup_expired_keys = pure tt;
  should_rotate_only = λ max_age w. record { store = refl; now = refl };
  rotate_key_only = λ grace w. record { store = refl; now = refl };
  cleanup_only = λ w. record { store = refl; now = refl };
}

abbrev runner : Runner
runner = record {
  keys = some key_service;
  key_max_age = 0;
  key_grace = 0;
  audit_retention = 0;
  audit = true;
}

run_once-Remains_example :
    let w' = (run_once runner stocked).1 in Remains stocked.store stocked.now w'.store w'.now
run_once-Remains_example = run_once-Remains runner stocked
