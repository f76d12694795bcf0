-- ===== src/Store.antt =====
-- internal/store/file: the repositories over JSON files, one module for each.
pub mod File
pub mod Sort
pub mod Users
pub mod Clients
pub mod Sessions
pub mod AuthCodes
pub mod Revocations
pub mod Tokens
pub mod Consents
pub mod VerificationTokens
pub mod Groups
pub mod Passkeys
pub mod AuditEvents
pub mod SigningKeys
pub mod Fetch
