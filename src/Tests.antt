-- ===== src/Tests.antt =====
-- Concrete inputs at which the theorems apply, one module for each component.
mod Policy
mod Webmention
mod Requests
mod Odns
mod Resolver
mod Programs
mod Signatures
mod Records
mod Queries
mod Codecs
mod Dnssec
mod Zones
mod Backend
mod Startup
mod Blockchain
mod Mutations
