-- ===== src/Auth.antt =====
-- internal/auth: passwords, sessions, lockout and second factors.
pub mod Lockout
pub mod Totp
pub mod Password
pub mod Session
pub mod Csrf
pub mod Pending
pub mod Keeps
pub mod Service
pub mod Account
