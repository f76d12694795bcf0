-- ===== src/Examples.antt =====
-- A small provider with one client, one user and one code, to run the program on.
pub mod Oidc
pub mod Introspection
pub mod Issue
pub mod Keys
pub mod Links
pub mod Lockout
pub mod Revocations
pub mod Scopes
pub mod SignIn
pub mod Endpoints
use Prim.Native.String
use idpico.Prelude.{◌*◌, ℕ, ◌+◌, String, Bool, true, false, List, [], ◌∷◌, Option, some, none, ◌==◌}
use idpico.Errors.{foreign}
use idpico.Prelude.Int.{negsuc, pos}
use idpico.Oidc.Authorize.{AuthorizeRequest}
use idpico.Domain.{Consent, User, Client, AuthCode, Token, second}
use idpico.World.{World, Store}
use idpico.Exec.{pure, raise}
use idpico.Exec.Inversion.{Same-refl}
use idpico.Oidc.Types.{Crypto, TokenGenerator, TokenRequest, no_claims}
use idpico.Oidc.TokenService.{TokenService}

-- A hash that can be read, for the examples alone.
abbrev pub plain_crypto : Crypto
plain_crypto = record {
  s256 = λ v. String.◌++◌ "hash of " v;
  hash_password = λ n p. some (String.◌++◌ "$argon2id$" p);
  verify_password = λ p h. some (String.◌++◌ "$argon2id$" p == h);
  issued_at_of = λ c. 0;
}

-- Tokens that name their subject.
pub plain_generator : TokenGenerator
unfolding pure raise
plain_generator = record {
  generate_id_token_for = λ sub aud ttl c. pure (String.◌++◌ "id token of " sub);
  generate_access_token_with_claims = λ sub ttl c. pure (String.◌++◌ "access token of " sub);
  validate_access_token = λ token. raise (foreign "unknown token");
  parse_id_token_hint = λ token. raise (foreign "unknown token");
  id_token_same = λ sub aud ttl c w. Same-refl w;
  access_token_same = λ sub ttl c w. Same-refl w;
  validate_same = λ token w. Same-refl w;
  hint_same = λ token w. Same-refl w;
}

abbrev pub service : TokenService
service = record {
  crypto = plain_crypto;
  generator = plain_generator;
  access_ttl = 900 * second;
  refresh_ttl = 3600 * second;
  issuer = "https://id.example";
  group_claims = none;
  revocations = true;
}

abbrev alice : User
alice = record {
  id = "alice";
  email = "alice@example.org";
  password_hash = "";
  display_name = "Alice";
  given_name = "";
  family_name = "";
  active = true;
  email_verified = true;
  admin = false;
  totp_secret = "";
  totp_last_step = pos 0;
  recovery_codes = [];
  created_at = 1;
  updated_at = 1;
}

abbrev pub web : Client
web = record {
  id = "web";
  secret = "$argon2id$secret";
  name = "Web";
  redirect_uris = "https://web.example/cb" ∷ [];
  grant_types = [];
  scopes = "openid" ∷ "offline_access" ∷ [];
  public = false;
  skip_consent = false;
  minimal_id_token = false;
  access_token_ttl = 0;
  refresh_token_ttl = 0;
  created_at = 1;
  updated_at = 1;
}

abbrev first_code : AuthCode
first_code = record {
  code = "code-1";
  client_id = "web";
  user_id = "alice";
  redirect_uri = "https://web.example/cb";
  scope = "openid offline_access";
  code_challenge = "hash of verifier";
  code_challenge_method = "S256";
  nonce = "";
  auth_time = 5;
  amr = [];
  created_at = 10;
  expires_at = 600;
  used = false;
}

abbrev pub first_token : Token
first_token = record {
  id = "refresh-1";
  user_id = "alice";
  client_id = "web";
  scope = "openid offline_access";
  created_at = 10;
  expires_at = 900;
  revoked = false;
}

abbrev pub allowed_before : Consent
allowed_before = record {
  id = "consent-1";
  user_id = "alice";
  client_id = "web";
  scopes = "openid" ∷ [];
  granted_at = 10;
}

abbrev pub start : World
start = record {
  store = record {
    users = alice ∷ [];
    clients = web ∷ [];
    sessions = [];
    auth_codes = first_code ∷ [];
    tokens = first_token ∷ [];
    revocations = [];
    consents = allowed_before ∷ [];
    verification_tokens = [];
    groups_data = record { groups = []; memberships = [] };
    passkeys = [];
    audit_events = [];
    signing_keys = [];
  };
  now = 100;
  faults = [];
  minted = 0;
  host = record {
    uuid = λ n. "refresh-2";
    random = λ n. "random";
    equal_fold = λ a b. a == b;
    to_lower = λ a. a;
  };
  memory = record { lockout = none; pending = []; last_reset = [] };
  set_cookies = [];
  outbox = [];
}

abbrev pub code_request : TokenRequest
code_request = record {
  grant_type = "authorization_code";
  code = "code-1";
  redirect_uri = "https://web.example/cb";
  client_id = "web";
  client_secret = "secret";
  code_verifier = "verifier";
  refresh_token = "";
  scope = "";
}

abbrev pub refresh_request : TokenRequest
refresh_request = record {
  grant_type = "refresh_token";
  code = "";
  redirect_uri = "";
  client_id = "web";
  client_secret = "secret";
  code_verifier = "";
  refresh_token = "refresh-1";
  scope = "openid";
}

abbrev pub authorize_request : AuthorizeRequest
authorize_request = record {
  client_id = "web";
  redirect_uri = "https://web.example/cb";
  response_type = "code";
  scope = "openid offline_access";
  state = "state-1";
  nonce = "";
  code_challenge = "hash of verifier";
  code_challenge_method = "S256";
  prompt = [];
  max_age = negsuc 0;
  raw_max_age = "300";
  has_request = false;
  has_request_uri = false;
  has_registration = false;
}
