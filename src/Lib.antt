-- ===== src/Lib.antt =====
-- Civic Connect: models of its Rust services, and what is proved of them.
--
-- The program. Four services carry logic.
--   * The GraphQL DNS API (indieweb2-bastion/graphql-dns-api) lets identities propose, approve and
--     execute mutations under a policy of roles, numbers of approvals and timelocks, and keeps DNS
--     records in a database.
--   * The webmention rate limiter (indieweb2-bastion/services/webmention-rate-limiter) validates a
--     request (media type, source and target, self-pings), then takes a token of the bucket of its IP
--     and one of the bucket of its source URL; a burst makes the IP cool down.
--   * The oblivious DNS (indieweb2-bastion/odns-rs): a proxy reads a framed query of a client, encrypts
--     it and sends it in a frame to a resolver, which decrypts it, asks a server and answers.
--   * The backend (backend/rust-api) has the errors, the locations, the cryptographic operations and the
--     handlers of the site; most handlers check their input and give a fixed answer.
--
-- The files.
--   * Prelude and its children: what the modules share. Tests are Boolean tests on the native numbers,
--     Lists, Results (Rust's Result and `?`), HashMap (an association list), Table (a map that is never
--     listed, as a function), Text (operations of str), Decimal (to_string and that parse reads it back),
--     Bytes (UTF-8, and the crates hex, base64 and blake3 as parameters).
--   * Dns/Policy: graphql-dns-api/src/policy.rs. A PolicyEnforcer is a record of the policy and the
--     table of proposals; each method is a function that returns the new state or a PolicyError. The
--     children hold the theorems: Rbac (has_privilege), WellFormed (the invariant), Outcomes and Stable
--     (what one call changes, and what no call changes), Execution (execute_proposal and the
--     timelock), Governance (a proposal that goes through), Ordering (the order of approvals).
--   * Dns/Records: of graphql-dns-api/src, models.rs and the mutations of records of resolvers.rs, with
--     what they call of consent.rs and db.rs. Validation, Accepted and Creation hold the theorems.
--   * Dns/Records/Content: the type codes and content_hash of models.rs.
--   * Dns/Dnssec: graphql-dns-api/src/dnssec.rs; Signing and Agreement (with the signatures of oDNS) hold
--     the theorems.
--   * Dns/Blockchain: graphql-dns-api/src/blockchain.rs; Anchoring and Verifying hold the theorems.
--   * Dns/Zones: of resolvers.rs, db.rs and models.rs the DNSSEC zones and the provenance of records,
--     where the three before meet; Keys, Provenance and Tampering hold the theorems.
--   * Dns/Consent: graphql-dns-api/src/consent.rs; Creation holds the theorem on the records that it
--     allows.
--   * Dns/Database: of graphql-dns-api/src/db.rs the connection and the schema.
--   * Dns/Startup: main.rs and from_nickel_file of policy.rs; Idle holds the theorem on when the server
--     starts and on the requests that it answers.
--   * Dns/Json: the GraphQL scalar of JSON of policy.rs.
--   * Dns/Queries: the queries of resolvers.rs with what they call of db.rs; Reverse holds the theorem.
--   * Dns/Mutations: the mutations of resolvers.rs that call the enforcer; Refinement holds the theorem.
--   * Webmention/Config, Url, Limiter, Validator, Handlers: config.rs (and load_config of main.rs), the
--     parameters for the url crate, limiter.rs, validator.rs and handlers.rs of the rate limiter.
--     Limiter/Bucket is TokenBucket, Limiter is RateLimiter; Rate, Cases, Slots and Checks are lemmas;
--     Bound, Retry, Safety, Cooldown, Isolation and Forgetting hold the theorems. Limiter/Interleaved runs checks and
--     cleanups of different tasks lock by lock (Load counts what they took); Bound there holds the theorem.
--     Validator/Decision follows the steps of the validation, Domain and Registrable the domains of hosts,
--     and Meaning holds the theorem, Handlers/Admission those of the two handlers, Handlers/Served
--     that of the service over a history of calls. Service is main.rs, with the theorem in
--     Started.
--   * Odns/Protocol, Crypto, Connection: common/src/protocol.rs, common/src/crypto.rs, and
--     handle_connection with what it calls of proxy/src/main.rs and resolver/src/main.rs.
--     Connection/Lookup holds the theorems from end to end. Odns/Signatures is
--     common/src/signatures.rs, with its theorems in Signatures/Hybrid. Odns/Sphincs is
--     common/src/sphincs_fallback.rs. Odns/Resolver is the rotation of the resolver's keys, as a
--     relation of steps, and the parsing of its interval; Rotation and Duration hold the theorems.
--     Odns/Programs is the two main functions with keygen; Deployed holds the theorem.
--   * Backend: backend/rust-api/src. Errors is error.rs, Location location/mod.rs with its theorems in
--     Neighbors and Distance, Crypto crypto/mod.rs with lemmas in Passwords, Handlers the files of api.
--   * Tests: concrete inputs at which the theorems apply.
--
-- Conventions. A call is atomic, as under the locks of the services, save in Limiter/Interleaved, where
-- an action is what happens under one lock (an insertion into the cooldowns goes with the bucket whose
-- lock it is under) and a list of actions is any interleaving of the tasks. The clock, fresh identifiers and
-- randomness are arguments: each reading of the clock is one. An Instant is a number of nanoseconds, a
-- timestamp of the policy a number of seconds. Integers keep the bounds of their types where the code
-- can reach them (u32 counts, u64 sums, the u16 of a frame). The f64 arithmetic of a bucket is exact,
-- in units of 1 / (60 * 10 ^ 9) of a token; its rounding is not modelled. Every loop is a recursion on
-- a list, except that to_string of n takes suc n as fuel for its digits, which is enough since a digit at
-- least divides the number by ten. Errors are values; a panic of the limiter is a value too.
--
-- Parameters. The url crate, str::to_lowercase and the parsing of an IP address (Webmention/Url),
-- Kyber, HKDF and XChaCha20-Poly1305 with their documented laws (Odns/Crypto: IsSound, Paired),
-- Ed448 and Dilithium5 likewise (Odns/Signatures: IsScheme), DNS messages and the server that
-- answers a query (Odns/Connection: Network), Debug of a text (Webmention/Handlers), axum and its sockets (Webmention/Service: Axum), SurrealDB and the
-- consent service (Dns/Records: Surreal, Consent; Dns/Zones: Tables), hex, base64 and blake3
-- (Prelude/Bytes: Codecs, IsCodec), ethers with the chains behind it (Dns/Blockchain: Ethers, IsEthers),
-- the answers of SurrealDB to a query (Dns/Queries: Answering, IsAnswering), HTTP and JSON (Dns/Consent:
-- Http), the command nickel and the listener with its origins (Dns/Startup: Nickel, Listening), the engine of SurrealDB (Dns/Database: Engine), the numbers of JSON (Dns/Json: Numbers), h3o
-- (Backend/Location: H3, IsH3), the f64 of a distance (Backend/Location/Distance: Floats, IsFloats),
-- argon2, ed25519 and sha2 (Backend/Crypto: CryptoCrates), and validator (Backend/Handlers: Validator).
--
-- Not modelled: listeners, TLS and logging (input and output), and the routers but for the rate limiter's; the schema of the DNS API; the
-- rows of the backend's database, which no handler reads; the services in other languages (Ada, Elixir,
-- Zig).
pub mod Prelude
pub mod Dns
pub mod Webmention
pub mod Odns
pub mod Backend
pub mod Tests
