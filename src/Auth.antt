-- ===== src/Auth.antt =====
-- internal/auth: the limit on failed authentications, the configured clients, and the tokens.
pub mod Limiter
pub mod Clients
pub mod Tokens
