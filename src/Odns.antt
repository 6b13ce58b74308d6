-- ===== src/Odns.antt =====
-- indieweb2-bastion/odns-rs: the oblivious DNS proxy, its resolver and what they share.
pub mod Protocol
pub mod Crypto
pub mod Connection
pub mod Signatures
pub mod Resolver
pub mod Programs
pub mod Sphincs
