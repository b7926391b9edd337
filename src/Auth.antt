-- ===== src/Auth.antt =====
-- internal/auth: the login limiter, the passwords, the sessions and the middleware.
pub mod Limiter
pub mod Middleware
pub mod Password
