-- ===== src/Odns/Programs/Deployed.antt =====
-- indieweb2-bastion/odns-rs: the two programs with the keys that one of them printed.
use civic_connect.Prelude.{
  ℕ, ◌+◌, ◌≤◌, ◌<◌, String, ◌≡◌, refl, ap, true, Option, none, some, List, [], ◌++◌, ◌==◌, eq_iff,
  if◌then◌else◌, length, ok,
}
use civic_connect.Odns.Protocol.{max_payload, read_framed, write_framed}
use civic_connect.Odns.Crypto.{Crates, IsSound, Paired, overhead, nonce_len, encrypt_query}
use civic_connect.Odns.Connection.{
  Network, resolver_connection, written, key_bytes, load_public_key, load_secret_key,
}
use civic_connect.Odns.Connection.Lookup.{Answers, lookup_answered}
use civic_connect.Odns.Resolver.{Peer, is_served}
use civic_connect.Odns.Programs.{
  ProxyArgs, ResolverArgs, Machine, Formats, IsFormat, load_tls_config, keygen, Serving, serving,
  rotation_of, resolver_main, Proxy, proxy_main, proxy_turn,
}

-- A network in which one address leads to a resolver, whose upstream address leads to a server.
abbrev pub leads_to :
    (c : Crates) (f : Formats c) (m : Machine)
    → (String → Network)
    → String
    → Serving c f m
    → String
    → Option (List ℕ → List ℕ)
leads_to c f m servers host s address =
    if address == host
    then some (λ bytes. written c (resolver_connection c (servers s.upstream) s.secret_key bytes))
    else none

module _ (c : Crates) (f : Formats c) (k : IsFormat c f) (m : Machine)
    (pair : c.PublicKey × c.SecretKey) where
  load_secret_key-keygen :
      (file : Option (List ℕ))
      → load_secret_key c f.decode m.read (some (keygen c f m pair).secret_key) file ≡ ok pair.1
  unfolding load_secret_key key_bytes keygen civic_connect.Odns.Crypto.secret_key_from_bytes
  load_secret_key-keygen file =
      rw (k.decode-encode (f.secret_key_bytes pair.1) (k.secret_key_bytes-IsBytes pair.1))
        (rw (k.secret_key-bytes pair.1) refl)

  load_public_key-keygen :
      (file : Option (List ℕ))
      → load_public_key c f.decode m.read (some (keygen c f m pair).public_key) file ≡ ok pair.0
  unfolding load_public_key key_bytes keygen civic_connect.Odns.Crypto.public_key_from_bytes
  load_public_key-keygen file =
      rw (k.decode-encode (f.public_key_bytes pair.0) (k.public_key_bytes-IsBytes pair.0))
        (rw (k.public_key-bytes pair.0) refl)

  -- The resolver that is given the printed secret key.
  abbrev pub resolver_of : ResolverArgs → Serving c f m
  resolver_of args = record {
    secret_key = pair.1;
    upstream = args.upstream;
    rotation = rotation_of args.rotate;
  }

  resolver_main-keygen :
      (spare : c.PublicKey × c.SecretKey) (args : ResolverArgs)
      → args.command ≡ none
      → args.privkey ≡ some (keygen c f m pair).secret_key
      → m.bind args.listen ≡ true
      → resolver_main c f m spare args ≡ ok (serving (resolver_of args))
  unfolding resolver_main
  resolver_main-keygen spare args served key free =
      rw (served, resolver_main) (rw (key, load_secret_key-keygen args.privkey_file, free) refl)

  abbrev pub proxy_of : ProxyArgs → m.TlsConfig → Proxy c f m
  proxy_of args tls = record {
    public_key = pair.0;
    tls = tls;
    resolver_addr = args.resolver;
    ipv6_only = args.ipv6_only;
  }

  proxy_main-keygen :
      (args : ProxyArgs) (tls : m.TlsConfig)
      → args.pubkey ≡ some (keygen c f m pair).public_key
      → load_tls_config m args.cert args.key ≡ ok tls
      → m.bind args.listen ≡ true
      → proxy_main c f m args ≡ ok (proxy_of args tls)
  unfolding proxy_main
  proxy_main-keygen args tls key loaded free =
      rw (key, load_public_key-keygen args.pubkey_file, loaded, free) refl

  -- The programs work together with printed keys: when `keygen` printed a pair of keys, a resolver that
  -- is started with the printed secret key and a proxy that is started with the printed public key and
  -- the resolver's address both serve, if they can listen and the proxy's TLS configuration loads; and
  -- a client of a peer that the proxy serves, which frames a query of 1 to 65535 - 1608 bytes, reads
  -- back the response with which the upstream server answers it, when the encryption succeeds with a
  -- nonce of 24 bytes, query and response are DNS messages and the response has 1 to 4096 bytes.
  pub keygen-lookup_answered :
      (sound : IsSound c) (servers : String → Network) (spare : c.PublicKey × c.SecretKey)
      (rargs : ResolverArgs) (pargs : ProxyArgs) (tls : m.TlsConfig) (peer : Peer) (seed : ℕ)
      (nonce query wire response frame rest : List ℕ)
      → Paired c pair.0 pair.1
      → rargs.command ≡ none
      → rargs.privkey ≡ some (keygen c f m pair).secret_key
      → m.bind rargs.listen ≡ true
      → pargs.pubkey ≡ some (keygen c f m pair).public_key
      → load_tls_config m pargs.cert pargs.key ≡ ok tls
      → m.bind pargs.listen ≡ true
      → is_served pargs.ipv6_only peer ≡ true
      → length nonce ≡ nonce_len
      → encrypt_query c seed nonce query pair.0 ≡ ok wire
      → Answers (servers rargs.upstream) query response
      → 0 < length query
      → length query + overhead ≤ max_payload
      → write_framed query ≡ ok frame
      → (s : Serving c f m) × (p : Proxy c f m) × (reply : List ℕ) × (resolver_main c f m spare
            rargs
          ≡ ok (serving s))
        × (proxy_main c f m pargs ≡ ok p)
        × (proxy_turn c f m p
              (leads_to c f m servers pargs.resolver s)
              seed
              nonce
              (some (peer, some (frame ++ rest)))
            ≡ some (ok reply))
        × (read_framed reply ≡ ok (response, []))
  unfolding proxy_turn
  keygen-lookup_answered sound servers spare rargs pargs tls peer seed nonce query wire response
        frame rest paired served secret free public loaded listens allowed wide sealed a full small
        framed =
      let s = resolver_of rargs in
      let p = proxy_of pargs tls in
      let (reply, answered, read_back) =
        lookup_answered c sound seed nonce query wire pair.0 wide sealed (servers rargs.upstream)
          pair.1 response frame rest paired a full small framed in
      (
        s,
        p,
        reply,
        resolver_main-keygen spare rargs served secret free,
        proxy_main-keygen pargs tls public loaded listens,
        rw (allowed, (eq_iff pargs.resolver pargs.resolver).1 refl) (ap some answered),
        read_back,
      )
