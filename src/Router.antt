-- ===== src/Router.antt =====
-- internal/router: what stands before the handlers of the admin backend.
pub mod Auth
pub mod Limiter
