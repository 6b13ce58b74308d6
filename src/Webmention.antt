-- ===== src/Webmention.antt =====
-- indieweb2-bastion/services/webmention-rate-limiter: the webmention rate limiter.
pub mod Config
pub mod Url
pub mod Limiter
pub mod Validator
pub mod Handlers
pub mod Service
