-- ===== src/Odns/Connection/Lookup.antt =====
-- indieweb2-bastion/odns-rs: a lookup through the proxy and the resolver, from end to end.
use native.Mathlib.Omega.{arith}
use mathlib.Core.List.{append-nil}
use civic_connect.Prelude.{
  ℕ, ◌+◌, ◌-◌, ◌≤◌, ◌<◌, ◌≡◌, refl, ap, subst, ◌∙◌, true, Option, some, List, [], ◌++◌, length,
  take_all, bind-ok, bind-err, map_err-err, map_err-ok, ok_or, ◌%◌, ◌^◌, ok, err, map_err, ◌>>=◌,
}
use civic_connect.Odns.Protocol.{
  max_payload, payload_too_large, read_framed, write_framed, to_be_bytes, write_framed-small,
  write_framed-large, read_framed-write_framed,
}
use civic_connect.Odns.Crypto.{
  Crates, IsSound, Paired, overhead, nonce_len, encrypt_query, decrypt_query, length-encrypt_query,
  decrypt_query-encrypt_query,
}
use civic_connect.Odns.Connection.{
  io, crypto, upstream_timeout, Network, resolve_upstream, answer_query, resolver_connection,
  written, forward_to_resolver, proxy_connection,
}

-- A frame with nothing after it is read back.
read_framed-frame :
    (payload frame : List ℕ)
    → 0 < length payload
    → write_framed payload ≡ ok frame
    → read_framed frame ≡ ok (payload, [])
read_framed-frame payload frame full h =
    subst (λ s. read_framed s ≡ ok (payload, [])) (append-nil frame)
      (read_framed-write_framed payload frame [] full h)

-- The server answers the query with the response, which fits the buffer.
pub record Answers (net : Network) (query response : List ℕ) : Type 0 where
  pub asks : net.is_message query ≡ true
  pub replies : net.upstream query ≡ some response
  pub is_response : net.is_message response ≡ true
  pub full : 0 < length response
  pub fits : length response ≤ 4096

module _ (net : Network) (query response : List ℕ) (a : Answers net query response) where
  resolve_upstream-Answers : resolve_upstream net query ≡ ok response
  unfolding resolve_upstream
  resolve_upstream-Answers =
      bind-ok (ok_or (net.upstream query) upstream_timeout) _ response
        (ap (λ d. ok_or d upstream_timeout) a.replies)
      ∙ rw (take_all 4096 response a.fits, a.is_response) refl

  answer_query-Answers :
      (c : Crates) → answer_query c net query ≡ map_err io (write_framed response)
  unfolding answer_query
  answer_query-Answers c =
      rw (a.asks) (bind-ok (resolve_upstream net query) _ response resolve_upstream-Answers)

module _ (c : Crates) (sound : IsSound c) (seed : ℕ) (nonce query wire : List ℕ) (pk : c.PublicKey)
    (wide : length nonce ≡ nonce_len) (sealed : encrypt_query c seed nonce query pk ≡ ok wire) where
  -- The proxy up to the forwarding of the query.
  proxy-sealed :
      (resolver : Option (List ℕ → List ℕ)) (frame rest : List ℕ)
      → 0 < length query
      → write_framed query ≡ ok frame
      → proxy_connection c seed nonce pk resolver (some (frame ++ rest))
        ≡ (do response ← forward_to_resolver c resolver wire; map_err io (write_framed response))
  unfolding proxy_connection
  proxy-sealed resolver frame rest full framed =
      bind-ok (map_err io (read_framed (frame ++ rest))) _ (query, rest)
        (map_err-ok io (read_framed (frame ++ rest)) (query, rest)
          (read_framed-write_framed query frame rest full framed))
      ∙ bind-ok (map_err crypto (encrypt_query c seed nonce query pk)) _ wire
          (map_err-ok crypto (encrypt_query c seed nonce query pk) wire sealed)

  forwarded :
      (resolver : List ℕ → List ℕ) (frame reply response : List ℕ)
      → write_framed wire ≡ ok frame
      → resolver frame ≡ reply
      → read_framed reply ≡ ok (response, [])
      → forward_to_resolver c (some resolver) wire ≡ ok response
  unfolding forward_to_resolver
  forwarded resolver frame reply response sent got read =
      bind-ok (map_err io (write_framed wire)) _ frame
        (map_err-ok io (write_framed wire) frame sent)
      ∙ bind-ok (map_err io (read_framed (resolver frame))) _ (response, [])
          (map_err-ok io (read_framed (resolver frame)) (response, []) (ap read_framed got ∙ read))

  not_forwarded :
      (resolver : List ℕ → List ℕ)
      → max_payload < length wire
      → forward_to_resolver c (some resolver) wire ≡ err (io (payload_too_large (length wire)))
  unfolding forward_to_resolver
  not_forwarded resolver h =
      bind-err (map_err io (write_framed wire)) _ (io (payload_too_large (length wire))) (
        map_err-err io (write_framed wire) (payload_too_large (length wire))
          (write_framed-large wire h))

  -- The longest query: a query of more than 65535 - 1608 bytes, which a client can frame, is not
  -- forwarded, whatever the resolver, but refused because its encryption (with a nonce of 24 bytes) is
  -- too large for a frame.
  pub long_query_refused :
      (resolver : List ℕ → List ℕ) (frame rest : List ℕ)
      → max_payload - overhead < length query
      → write_framed query ≡ ok frame
      → proxy_connection c seed nonce pk (some resolver) (some (frame ++ rest))
        ≡ err (io (payload_too_large (length query + overhead)))
  unfolding forward_to_resolver write_framed
  long_query_refused resolver frame rest long framed =
      proxy-sealed (some resolver) frame rest (omega arith) framed
      ∙ bind-err (forward_to_resolver c (some resolver) wire) _
          (io (payload_too_large (length wire)))
          (not_forwarded resolver
            (omega (arith, length-encrypt_query c seed nonce query pk sound wide wire sealed)))
      ∙ ap (λ n. err (io (payload_too_large n)))
          (length-encrypt_query c seed nonce query pk sound wide wire sealed)

  answered_frame :
      (net : Network) (sk : c.SecretKey) (wire sent query response : List ℕ)
      → Answers net query response
      → 0 < length wire
      → write_framed wire ≡ ok sent
      → (reply : List ℕ) → write_framed response ≡ ok reply
      → decrypt_query c wire sk ≡ ok query
      → resolver_connection c net sk sent ≡ ok reply
  unfolding resolver_connection
  answered_frame net sk wire sent query response a full framed reply replied opened =
      bind-ok (map_err io (read_framed sent)) _ (wire, [])
        (map_err-ok io (read_framed sent) (wire, []) (read_framed-frame wire sent full framed))
      ∙ bind-ok (map_err crypto (decrypt_query c wire sk)) _ query
          (map_err-ok crypto (decrypt_query c wire sk) query opened)
      ∙ answer_query-Answers net query response a c
      ∙ map_err-ok io (write_framed response) reply replied

  -- A lookup succeeds from end to end: a client that frames a query of 1 to 65535 - 1608 bytes reads
  -- back, as one frame, the response with which the server answers that query, when proxy and resolver
  -- have keys of one pair, the encryption succeeds with a nonce of 24 bytes, query and response are DNS
  -- messages and the response has 1 to 4096 bytes.
  pub lookup_answered :
      (net : Network) (sk : c.SecretKey) (response frame rest : List ℕ)
      → Paired c pk sk
      → Answers net query response
      → 0 < length query
      → length query + overhead ≤ max_payload
      → write_framed query ≡ ok frame
      → (reply : List ℕ) × (proxy_connection c seed nonce pk
            (some (λ s. written c (resolver_connection c net sk s)))
            (some (frame ++ rest))
          ≡ ok reply)
        × (read_framed reply ≡ ok (response, []))
  unfolding resolver_connection forward_to_resolver
  lookup_answered net sk response frame rest paired a full small framed =
      let lengthy : length wire ≡ length query + overhead =
        length-encrypt_query c seed nonce query pk sound wide wire sealed in
      let sent : List ℕ = to_be_bytes (length wire % 2 ^ 16) ++ wire in
      let sent_ok = write_framed-small wire (omega (arith, lengthy)) in
      let resolver : List ℕ → List ℕ = λ s. written c (resolver_connection c net sk s) in
      let reply : List ℕ = to_be_bytes (length response % 2 ^ 16) ++ response in
      let reply_ok = write_framed-small response (omega (arith, a.fits)) in
      let resolved =
        answered_frame net sk wire sent query response a (omega (arith, lengthy)) sent_ok reply
          reply_ok
          (decrypt_query-encrypt_query c seed nonce query pk sound wide wire sealed sk paired) in
      let read_back = read_framed-frame response reply a.full reply_ok in
      (
        reply,
        proxy-sealed _ frame rest full framed
            ∙ bind-ok (forward_to_resolver c (some resolver) wire) _ response
                (forwarded resolver sent reply response sent_ok (ap (written c) resolved) read_back)
            ∙ map_err-ok io (write_framed response) reply reply_ok,
        read_back,
      )
