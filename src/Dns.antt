-- ===== src/Dns.antt =====
-- indieweb2-bastion/graphql-dns-api: the GraphQL DNS API.
pub mod Policy
pub mod Records
pub mod Mutations
pub mod Dnssec
pub mod Blockchain
pub mod Zones
pub mod Consent
pub mod Database
pub mod Startup
pub mod Json
pub mod Queries
