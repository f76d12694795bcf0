-- ===== src/Oidc/TokenService.antt =====
-- internal/oidc/token.go: the state of the token service, and what its endpoints share.
pub mod Caller
pub mod Accepted
pub mod Exchanged
pub mod Refreshed
pub mod Responses
pub mod Grant
pub mod CutOff
pub mod Exchange
pub mod Refresh
pub mod Revocation
pub mod Introspection
pub mod Introspected
use idpico.Prelude.{ℕ, String, Bool, Option}
use idpico.Oidc.Types.{Crypto, TokenGenerator}

-- `group_claims` is the claim name of `GroupClaims`, or `none` for nil; `revocations` tells whether
-- the service has a revocation repository.
pub record TokenService : Type 0 where
  pub crypto : Crypto
  pub generator : TokenGenerator
  pub access_ttl : ℕ
  pub refresh_ttl : ℕ
  pub issuer : String
  pub group_claims : Option String
  pub revocations : Bool
