-- ===== src/Odns/Connection.antt =====
-- indieweb2-bastion/odns-rs/proxy/src/main.rs and resolver/src/main.rs: what a connection does.
-- DNS messages (hickory-proto), the upstream server and TLS are parameters: the stream of a client
-- is its plain text, or `none` where the handshake fails.
pub mod Lookup
use civic_connect.Prelude.{
  ℕ, Bool, Option, none, some, List, [], take, if◌then◌else◌, Result, ok, err, map_err, ok_or,
  ◌>>=◌,
}
use civic_connect.Odns.Protocol.{IoError, read_framed, write_framed}
use civic_connect.Odns.Crypto.{
  Crates, Error, encrypt_query, decrypt_query, secret_key_from_bytes, public_key_from_bytes,
}

pub data Failure : Type 0 where
  io : IoError → Failure
  crypto : Error → Failure
  malformed upstream_timeout handshake no_connection no_key undecodable : Failure

-- `is_message` is whether `Message::from_bytes` succeeds; `upstream` is the datagram with which the
-- server answers a query, or `none` for a failure or a time-out.
pub record Network : Type 0 where
  pub is_message : List ℕ → Bool
  pub upstream : List ℕ → Option (List ℕ)

-- The buffer that receives the answer of the server holds 4096 bytes.
unfoldable pub resolve_upstream : Network → List ℕ → Result Failure (List ℕ)
resolve_upstream net query_wire = do
  datagram ← ok_or (net.upstream query_wire) upstream_timeout
  if net.is_message (take 4096 datagram) then ok (take 4096 datagram) else err malformed

module _ (c : Crates) where
  -- The end of `handle_connection` of the resolver, from the decrypted query: what it writes.
  unfoldable pub answer_query : Network → List ℕ → Result Failure (List ℕ)
  unfolding resolve_upstream
  answer_query net dns_wire =
      if net.is_message dns_wire
      then (do
        response_wire ← resolve_upstream net dns_wire
        map_err io (write_framed response_wire))
      else err malformed

  -- `handle_connection` of the resolver: what it writes to the stream.
  unfoldable pub resolver_connection : Network → c.SecretKey → List ℕ → Result Failure (List ℕ)
  unfolding answer_query
  resolver_connection net secret_key stream = do
    encrypted ← map_err io (read_framed stream)
    dns_wire ← map_err crypto (decrypt_query c encrypted.0 secret_key)
    answer_query net dns_wire

  -- What the other side of a connection reads: an error closes it with nothing written.
  abbrev pub written : Result Failure (List ℕ) → List ℕ
  written (ok bytes) = bytes
  written (err e) = []

  -- `resolver` is what the resolver writes when it is sent the bytes, `none` without a connection.
  unfoldable pub forward_to_resolver : Option (List ℕ → List ℕ) → List ℕ → Result Failure (List ℕ)
  forward_to_resolver resolver encrypted = do
    connected ← ok_or resolver no_connection
    frame ← map_err io (write_framed encrypted)
    response ← map_err io (read_framed (connected frame))
    ok response.0

  -- `handle_connection` of the proxy: what it writes to the client.
  unfoldable pub proxy_connection :
      ℕ
      → List ℕ
      → c.PublicKey
      → Option (List ℕ → List ℕ)
      → Option (List ℕ)
      → Result Failure (List ℕ)
  unfolding forward_to_resolver
  proxy_connection seed nonce public_key resolver stream = do
    tls_stream ← ok_or stream handshake
    dns_wire ← map_err io (read_framed tls_stream)
    encrypted ← map_err crypto (encrypt_query c seed nonce dns_wire.0 public_key)
    response ← forward_to_resolver resolver encrypted
    map_err io (write_framed response)

  -- The bytes of a key: those of the argument in base64, or else those of the file.
  unfoldable pub key_bytes :
      (List ℕ → Option (List ℕ))
      → (List ℕ → Option (List ℕ))
      → Option (List ℕ)
      → Option (List ℕ)
      → Result Failure (List ℕ)
  key_bytes decode read (some b64) file = ok_or (decode b64) undecodable
  key_bytes decode read none (some path) = ok_or (read path) undecodable
  key_bytes decode read none none = err no_key

  unfoldable pub load_public_key :
      (List ℕ → Option (List ℕ))
      → (List ℕ → Option (List ℕ))
      → Option (List ℕ)
      → Option (List ℕ)
      → Result Failure c.PublicKey
  load_public_key decode read pubkey pubkey_file = do
    bytes ← key_bytes decode read pubkey pubkey_file
    map_err crypto (public_key_from_bytes c bytes)

  unfoldable pub load_secret_key :
      (List ℕ → Option (List ℕ))
      → (List ℕ → Option (List ℕ))
      → Option (List ℕ)
      → Option (List ℕ)
      → Result Failure c.SecretKey
  load_secret_key decode read privkey privkey_file = do
    bytes ← key_bytes decode read privkey privkey_file
    map_err crypto (secret_key_from_bytes c bytes)
