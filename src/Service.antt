-- ===== src/Service.antt =====
-- internal/service: tokens, audit, authentication, rate limits and health.
pub mod Token
pub mod Audit
pub mod Quiet
pub mod Revoked
pub mod Spent
pub mod Fails
pub mod Auth
pub mod Health
pub mod RateLimit
