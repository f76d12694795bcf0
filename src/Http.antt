-- ===== src/Http.antt =====
-- internal/http: the handlers of the OAuth endpoints.
pub mod Requests
pub mod Endpoints
