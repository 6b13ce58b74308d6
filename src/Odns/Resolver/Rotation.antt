-- ===== src/Odns/Resolver/Rotation.antt =====
-- indieweb2-bastion/odns-rs/resolver/src/main.rs: lookups while the keys of the resolver rotate.
use civic_connect.Prelude.{
  none, subst, Option, ℕ, ◌+◌, ◌≤◌, ◌<◌, ◌≡◌, some, List, [], ◌++◌, length, ok,
}
use civic_connect.Odns.Protocol.{max_payload, read_framed, write_framed}
use civic_connect.Odns.Crypto.{Crates, IsSound, Paired, overhead, nonce_len, encrypt_query}
use civic_connect.Odns.Connection.{Network, resolver_connection, written, proxy_connection}
use civic_connect.Odns.Connection.Lookup.{Answers, lookup_answered}
use civic_connect.Odns.Resolver.{
  Resolver, announce_keys, install_key, Step, announcement, installation, connection, Run, start,
  more,
}

module _ (c : Crates) (generate_keypair : ℕ → c.PublicKey × c.SecretKey)
    (pairs : (seed : ℕ) → Paired c (generate_keypair seed).0 (generate_keypair seed).1)
    (net : Network) where
  -- The announced key is that of the secret key that is about to be installed, or else of the secret
  -- key behind the lock.
  abbrev pub Announces : c.PublicKey → c.SecretKey → Option c.SecretKey → Type 0
  Announces pk sk none = Paired c pk sk
  Announces pk sk (some next) = Paired c pk next

  abbrev pub IsCurrent : Resolver c generate_keypair → Type 0
  IsCurrent r = Announces r.announced r.secret_key r.pending

  Step-IsCurrent :
      (r after : Resolver c generate_keypair)
      → Step c generate_keypair net r after
      → IsCurrent r
      → IsCurrent after
  unfolding announce_keys install_key
  Step-IsCurrent r after (announcement seed s e) h = pairs seed
  Step-IsCurrent r after (installation sk s e) h = subst (Announces s.announced s.secret_key) e h
  Step-IsCurrent r after (connection stream reply s e) h = h

  pub Run-IsCurrent :
      (first last : Resolver c generate_keypair)
      → Run c generate_keypair net first last
      → IsCurrent first
      → IsCurrent last
  Run-IsCurrent first _ start h = h
  Run-IsCurrent first _ (more r last run step) h =
      Step-IsCurrent r last step (Run-IsCurrent first r run h)

  -- Lookups go on being answered while keys rotate: after any number of rotations and connections of a
  -- resolver that began with a pair of keys, connections within a rotation included, when no rotation
  -- is between its announcement and its installation, a client that frames a query of 1 to 65535 - 1608 bytes
  -- for a proxy that has the public key announced last reads back the response with which the server
  -- answers the query, when the encryption succeeds with a nonce of 24 bytes, query and response are
  -- DNS messages and the response has 1 to 4096 bytes.
  pub Run-lookup_answered :
      (sound : IsSound c) (first last : Resolver c generate_keypair) (seed : ℕ)
      (nonce query wire response frame rest : List ℕ)
      → Run c generate_keypair net first last
      → IsCurrent first
      → last.pending ≡ none
      → length nonce ≡ nonce_len
      → encrypt_query c seed nonce query last.announced ≡ ok wire
      → Answers net query response
      → 0 < length query
      → length query + overhead ≤ max_payload
      → write_framed query ≡ ok frame
      → (reply : List ℕ) × (proxy_connection c seed nonce last.announced
            (some (λ s. written c (resolver_connection c net last.secret_key s)))
            (some (frame ++ rest))
          ≡ ok reply)
        × (read_framed reply ≡ ok (response, []))
  Run-lookup_answered sound first last seed nonce query wire response frame rest run h idle wide
        sealed =
      lookup_answered c sound seed nonce query wire last.announced wide sealed net last.secret_key
        response frame rest
        (subst (Announces last.announced last.secret_key) idle (Run-IsCurrent first last run h))
