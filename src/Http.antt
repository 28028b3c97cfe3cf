-- ===== src/Http.antt =====
-- The middleware of src/http/middleware that decides which requests reach a handler.
pub mod RateLimit
pub mod Authenticate
