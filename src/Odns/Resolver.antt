-- ===== src/Odns/Resolver.antt =====
-- indieweb2-bastion/odns-rs/resolver/src/main.rs: the rotation of keys and the parsing of its interval;
-- of proxy/src/main.rs, which peers are served. The key generation of Kyber-1024 is a parameter.
pub mod Duration
pub mod Rotation
use civic_connect.Prelude.{
  Option, ℕ, ◌*◌, ◌%◌, ◌^◌, String, ◌≡◌, Bool, true, false, ◌&&◌, none, some, List, if◌then◌else◌,
  Result, ok, ok_or, ◌>>=◌,
}
use civic_connect.Prelude.Text.{trim, strip_suffix, parse_uint}
use civic_connect.Odns.Crypto.{Crates}
use civic_connect.Odns.Connection.{Network, resolver_connection, written}

-- The texts of an invalid duration
pub data DurationError : Type 0 where
  invalid_hours invalid_minutes invalid_seconds invalid_duration : DurationError

-- `str::parse` of a u64, times the seconds of a unit. A product that does not fit wraps around, as in
-- a build without overflow checks.
unfoldable pub seconds_of : DurationError → ℕ → String → Result DurationError ℕ
seconds_of e unit s = do n ← ok_or (parse_uint (2 ^ 64) s) e; ok (n * unit % 2 ^ 64)

-- `parse_duration` of a text without white space around it
unfoldable pub parse_trimmed : String → Result DurationError ℕ
unfolding seconds_of
parse_trimmed s = elim (strip_suffix "h" s) [
  | some hours ↦ seconds_of invalid_hours 3600 hours
  | none ↦ elim (strip_suffix "m" s) [
    | some mins ↦ seconds_of invalid_minutes 60 mins
    | none ↦ elim (strip_suffix "s" s) [
      | some secs ↦ seconds_of invalid_seconds 1 secs
      | none ↦ seconds_of invalid_duration 1 s
    ]
  ]
]

-- The number of seconds of `Duration::from_secs`
unfoldable pub parse_duration : String → Result DurationError ℕ
unfolding parse_trimmed
parse_duration s = parse_trimmed (trim s)

-- An address of a peer: of IPv4, or of IPv6, of which some are mapped addresses of IPv4.
pub data Peer : Type 0 where
  ipv4 : ℕ → Peer
  ipv6 : ℕ → Peer

abbrev pub is_ipv4 : Peer → Bool
is_ipv4 (ipv4 n) = true
is_ipv4 (ipv6 n) = false

-- Whether the proxy handles the connection of a peer.
unfoldable pub is_served : Bool → Peer → Bool
is_served ipv6_only peer = if ipv6_only && is_ipv4 peer then false else true

module _ (c : Crates) (generate_keypair : ℕ → c.PublicKey × c.SecretKey) where
  -- The secret key behind the lock, the public key that was announced last, and the secret key that the
  -- rotation loop holds between its announcement and its write.
  pub record Resolver : Type 0 where
    pub secret_key : c.SecretKey
    pub announced : c.PublicKey
    pub pending : Option c.SecretKey

  -- The first half of a turn of `key_rotation_loop`, which announces the public key of a new pair; the
  -- seed is the randomness of the pair.
  unfoldable pub announce_keys : ℕ → Resolver → Resolver
  announce_keys seed r =
      let keys = generate_keypair seed in record r { announced = keys.0; pending = some keys.1 }

  -- The second half, under the write lock.
  unfoldable pub install_key : c.SecretKey → Resolver → Resolver
  install_key sk r = record r { secret_key = sk; pending = none }

  -- What the resolver does: a half of a rotation, or the handling of a connection, in which a client
  -- sends some bytes and reads some, and which can come between the halves.
  pub data Step (net : Network) : Resolver → Resolver → Type 0 where
    announcement : (seed : ℕ) (r : Resolver) → r.pending ≡ none → Step net r (announce_keys seed r)
    installation :
        (sk : c.SecretKey) (r : Resolver) → r.pending ≡ some sk → Step net r (install_key sk r)
    connection :
        (stream reply : List ℕ) (r : Resolver)
        → written c (resolver_connection c net r.secret_key stream) ≡ reply
        → Step net r r

  -- Any number of steps.
  pub data Run (net : Network) (first : Resolver) : Resolver → Type 0 where
    start : Run net first first
    more : (r last : Resolver) → Run net first r → Step net r last → Run net first last
