-- ===== src/Odns/Programs.antt =====
-- indieweb2-bastion/odns-rs/resolver/src/main.rs and proxy/src/main.rs: what the two programs do with
-- their arguments until they serve connections. The parsing of a command line (clap), files, sockets,
-- base64, the bytes of keys and the loading of PEM are parameters.
pub mod Deployed
use civic_connect.Prelude.{
  ℕ, zero, suc, ◌+◌, ◌-◌, ◌*◌, ◌/◌, ◌%◌, ◌^◌, ◌≤◌, ◌<◌, String, ◌≡◌, refl, sym, ap, subst, ◌∙◌, ◌≢◌,
  ◌↔◌, ◌⊎◌, inl, inr, Bool, true, false, not, ◌&&◌, ◌||◌, Option, none, some, List, [], ◌∷◌, ◌++◌,
  map, ◌==◌, eq_iff, ltb, leb, eqb, if◌then◌else◌, Bool-cases, Option-cases, length, take, drop,
  replicate, length-append, length-take, take-append-drop, take-append, drop-append,
  length-replicate, All, reverse, Result, ok, err, ok_or, map_err, is_ok, ◌>>=◌, ◌>>◌, bind-ok,
  bind-err, bind-ok_inv, ok_or-ok_inv, map_err-ok_inv, map_err-ok, map_err-err,
}
use native.Mathlib.Omega.{arith}
use civic_connect.Prelude.Bytes.{IsBytes}
use civic_connect.Odns.Crypto.{Crates}
use civic_connect.Odns.Connection.{
  Failure, no_connection, load_public_key, load_secret_key, proxy_connection,
}
use civic_connect.Odns.Resolver.{Peer, is_served}

pub data Command : Type 0 where
  keygen_command : Command

-- The `Args` of the proxy, a text as its bytes where it is a key or a path to one.
pub record ProxyArgs : Type 0 where
  pub listen : String
  pub resolver : String
  pub pubkey : Option (List ℕ)
  pub pubkey_file : Option (List ℕ)
  pub cert : String
  pub key : String
  pub ipv6_only : Bool

-- The `Args` of the resolver; `rotate` is a number of seconds.
pub record ResolverArgs : Type 0 where
  pub command : Option Command
  pub listen : String
  pub upstream : String
  pub privkey : Option (List ℕ)
  pub privkey_file : Option (List ℕ)
  pub rotate : ℕ

-- The values of the options that are not given.
abbrev pub default_proxy_args : ProxyArgs
default_proxy_args = record {
  listen = "[::]:853";
  resolver = "localhost:8853";
  pubkey = none;
  pubkey_file = none;
  cert = "cert.pem";
  key = "key.pem";
  ipv6_only = false;
}

abbrev pub default_resolver_args : ResolverArgs
default_resolver_args = record {
  command = none;
  listen = "[::]:8853";
  upstream = "[2606:4700:4700::1111]:53";
  privkey = none;
  privkey_file = none;
  rotate = 24 * 3600;
}

-- What the programs find where they run: `bind` is whether an address can be listened on, `certs`,
-- `private_key` and `tls_config` are the calls of rustls, with `none` for an error.
pub record Machine : Type 1 where
  pub Chain : Type 0
  pub Der : Type 0
  pub TlsConfig : Type 0
  pub read : List ℕ → Option (List ℕ)
  pub read_pem : String → Option (List ℕ)
  pub bind : String → Bool
  pub certs : List ℕ → Option Chain
  pub private_key : List ℕ → Option (Option Der)
  pub tls_config : Chain → Der → Option TlsConfig

-- The formats of keys: their bytes, and base64 of bytes.
pub record Formats (c : Crates) : Type 0 where
  pub public_key_bytes : c.PublicKey → List ℕ
  pub secret_key_bytes : c.SecretKey → List ℕ
  pub encode : List ℕ → List ℕ
  pub decode : List ℕ → Option (List ℕ)

-- What the crates document: keys and bytes are read back.
pub record IsFormat (c : Crates) (f : Formats c) : Type 0 where
  pub public_key-bytes :
      (pk : c.PublicKey) → c.public_key_from_bytes (f.public_key_bytes pk) ≡ some pk
  pub secret_key-bytes :
      (sk : c.SecretKey) → c.secret_key_from_bytes (f.secret_key_bytes sk) ≡ some sk
  pub public_key_bytes-IsBytes : (pk : c.PublicKey) → IsBytes (f.public_key_bytes pk)
  pub secret_key_bytes-IsBytes : (sk : c.SecretKey) → IsBytes (f.secret_key_bytes sk)
  pub decode-encode : (bytes : List ℕ) → IsBytes bytes → f.decode (f.encode bytes) ≡ some bytes

-- The lengths and the texts of the keys that `keygen` prints.
pub record Printed : Type 0 where
  pub public_key_len : ℕ
  pub public_key : List ℕ
  pub secret_key_len : ℕ
  pub secret_key : List ℕ

pub data ProgramError : Type 0 where
  failure : Failure → ProgramError
  unreadable : String → ProgramError
  bad_certificates bad_private_key tls_refused : ProgramError
  no_private_key : String → ProgramError
  cannot_listen : String → ProgramError

-- `TcpListener::bind`
abbrev pub listening : Machine → String → Result ProgramError (Unit {0})
listening m address = if m.bind address then ok tt else err (cannot_listen address)

unfoldable pub load_tls_config : (m : Machine) → String → String → Result ProgramError m.TlsConfig
load_tls_config m cert_path key_path = do
  cert_pem ← ok_or (m.read_pem cert_path) (unreadable cert_path)
  key_pem ← ok_or (m.read_pem key_path) (unreadable key_path)
  cert_chain ← ok_or (m.certs cert_pem) bad_certificates
  found ← ok_or (m.private_key key_pem) bad_private_key
  key_der ← ok_or found (no_private_key key_path)
  ok_or (m.tls_config cert_chain key_der) tls_refused

-- Keys rotate where the interval is not zero.
abbrev pub rotation_of : ℕ → Option ℕ
rotation_of rotate = if ltb 0 rotate then some rotate else none

module _ (c : Crates) (f : Formats c) (m : Machine) where
  -- `keygen` with the pair that `generate_keypair` returned.
  unfoldable pub keygen : c.PublicKey × c.SecretKey → Printed
  keygen (pk, sk) = record {
    public_key_len = length (f.public_key_bytes pk);
    public_key = f.encode (f.public_key_bytes pk);
    secret_key_len = length (f.secret_key_bytes sk);
    secret_key = f.encode (f.secret_key_bytes sk);
  }

  -- A resolver that serves: its key, the server that it asks, and the interval of its rotation.
  pub record Serving : Type 0 where
    pub secret_key : c.SecretKey
    pub upstream : String
    pub rotation : Option ℕ

  -- How `main` of the resolver goes on, unless it fails.
  pub data ResolverProgram : Type 0 where
    printed : Printed → ResolverProgram
    serving : Serving → ResolverProgram

  abbrev pub start_serving : ResolverArgs → Result ProgramError ResolverProgram
  start_serving args = do
    secret_key ← map_err failure (load_secret_key c f.decode m.read args.privkey args.privkey_file)
    listening m args.listen
    ok (
        serving (record {
          secret_key = secret_key;
          upstream = args.upstream;
          rotation = rotation_of args.rotate;
        }))

  -- `main` of the resolver; `pair` is what `generate_keypair` returns, should it be called.
  unfoldable pub resolver_main :
      c.PublicKey × c.SecretKey → ResolverArgs → Result ProgramError ResolverProgram
  unfolding keygen
  resolver_main pair args = elim args.command [
    | some keygen_command ↦ ok (printed (keygen pair))
    | none ↦ start_serving args
  ]

  -- A proxy that serves.
  pub record Proxy : Type 0 where
    pub public_key : c.PublicKey
    pub tls : m.TlsConfig
    pub resolver_addr : String
    pub ipv6_only : Bool

  -- `main` of the proxy up to its loop.
  unfoldable pub proxy_main : ProxyArgs → Result ProgramError Proxy
  unfolding load_tls_config
  proxy_main args = do
    public_key ← map_err failure (load_public_key c f.decode m.read args.pubkey args.pubkey_file)
    tls ← load_tls_config m args.cert args.key
    listening m args.listen
    ok (record {
      public_key = public_key;
      tls = tls;
      resolver_addr = args.resolver;
      ipv6_only = args.ipv6_only;
    })

  -- One turn of the loop of the proxy: an accepted connection of a peer with its stream of bytes, from
  -- TLS, or `none` where accepting fails; what it writes, if it handles the connection. `network` is
  -- what the address of a resolver leads to.
  unfoldable pub proxy_turn :
      Proxy
      → (String → Option (List ℕ → List ℕ))
      → ℕ
      → List ℕ
      → Option (Peer × Option (List ℕ))
      → Option (Result Failure (List ℕ))
  proxy_turn p network seed nonce none = none
  proxy_turn p network seed nonce (some (peer, stream)) =
      if is_served p.ipv6_only peer
      then some (proxy_connection c seed nonce p.public_key (network p.resolver_addr) stream)
      else none
