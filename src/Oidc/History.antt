-- ===== src/Oidc/History.antt =====
-- Histories of requests to the authorization, token, revocation and introspection endpoints, as
-- internal/http/oidc.go serves them.
pub mod Once
pub mod CodeOnce
pub mod TokenOnce
use idpico.Prelude.{
  ℕ, zero, ◌+◌, String, Bool, List, [], ◌∷◌, Option, none, some, ◌==◌, if◌then◌else◌,
}
use idpico.Domain.{Time}
use idpico.World.{World}
use idpico.Exec.{Exec, Result, ok, err, Done, pure, raise, ◌>>=◌, ◌>>◌}
use idpico.Oidc.Types.{TokenRequest, TokenResponse, RevocationRequest}
use idpico.Oidc.Authorize.{AuthorizeRequest, create_auth_code}
use idpico.Oidc.TokenService.{TokenService}
use idpico.Oidc.TokenService.Exchange.{handle_authorization_code}
use idpico.Oidc.TokenService.Refresh.{handle_refresh_token}
use idpico.Oidc.TokenService.Revocation.{handle_revocation}
use idpico.Oidc.TokenService.Introspection.{IntrospectionRequest, introspect}

-- `authorize` is `CreateAuthCode` for a user who is signed in.
pub data Request : Type 0 where
  authorize : ℕ → AuthorizeRequest → String → Time → List String → Request
  exchange : TokenRequest → Request
  refresh : TokenRequest → Request
  revocation : RevocationRequest → Request
  introspection : IntrospectionRequest → Request

-- A request comes some time after the one before it, and some of its reads and writes may fail.
pub record Event : Type 0 where
  pub elapsed : ℕ
  pub faults : List Bool
  pub request : Request

abbrev pub arrive : Event → World → World
arrive e w = record w { now = w.now + e.elapsed; faults = e.faults }

abbrev tokens_of : Exec TokenResponse → Exec (Option TokenResponse)
tokens_of m = do resp ← m; pure (some resp)

abbrev no_tokens : {A : Type 0} → Exec A → Exec (Option TokenResponse)
no_tokens m = do m; pure none

pub serve : TokenService → Request → Exec (Option TokenResponse)
serve s (authorize ttl req user at amr) = no_tokens (create_auth_code ttl req user at amr)
serve s (exchange req) = tokens_of (handle_authorization_code s req)
serve s (refresh req) = tokens_of (handle_refresh_token s req)
serve s (revocation req) = no_tokens (handle_revocation s req)
serve s (introspection req) = no_tokens (introspect s req)

-- How often a history gets the answers that `counts` counts.
pub total : TokenService → (Request → Result (Option TokenResponse) → ℕ) → List Event → World → ℕ
total s counts [] w = 0
total s counts (e ∷ es) w =
    let (r, w') = serve s e.request (arrive e w) in counts e.request r + total s counts es w'

-- Whether an answer hands out tokens for the authorization code.
abbrev pub redeems : String → Request → Result (Option TokenResponse) → ℕ
redeems code (exchange req) (ok r) = if req.code == code then 1 else 0
redeems code _ _ = 0

-- Whether an answer hands out tokens for the refresh token.
abbrev pub renews : String → Request → Result (Option TokenResponse) → ℕ
renews id (refresh req) (ok r) = if req.refresh_token == id then 1 else 0
renews id _ _ = 0
