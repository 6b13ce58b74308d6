-- ===== src/Backend.antt =====
-- backend/rust-api: the backend of the site.
pub mod Errors
pub mod Location
pub mod Crypto
pub mod Handlers
