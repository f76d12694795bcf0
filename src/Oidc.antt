-- ===== src/Oidc.antt =====
-- internal/oidc: the OAuth 2.0 and OpenID Connect endpoints.
pub mod Types
pub mod Scope
pub mod Pkce
pub mod ClientSecret
pub mod ConsentService
pub mod Authorize
pub mod GroupClaims
pub mod TokenService
pub mod UserInfo
pub mod Logout
pub mod Keeps
pub mod Retired
pub mod History
