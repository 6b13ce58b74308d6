-- ===== src/Tests/Odns.antt =====
-- Inputs for indieweb2-bastion/odns-rs.
use native.Mathlib.Omega.{arith}
use civic_connect.Prelude.{
  ℕ, ◌+◌, ◌-◌, ◌≡◌, ◌%◌, ◌^◌, refl, sym, subst, ◌∙◌, ap, true, Option, some, none, List, [], ◌∷◌,
  ◌++◌, length, take, replicate, length-append, length-replicate, take-append, ok, err,
}
use civic_connect.Odns.Protocol.{
  payload_too_large, read_framed, write_framed, to_be_bytes, write_framed-small,
  read_framed-write_framed,
}
use civic_connect.Odns.Crypto.{
  Crates, IsSound, overhead, derive_symmetric_key, encrypt_query, decrypt_query,
  decrypt_query-encrypt_query,
}
use civic_connect.Odns.Connection.{io, Network, resolver_connection, written, proxy_connection}
use civic_connect.Odns.Connection.Lookup.{Answers, lookup_answered, long_query_refused}

abbrev first_byte : List ℕ → Option ℕ
first_byte [] = none
first_byte (b ∷ bs) = some b

-- Crates that keep their formats, send the secret as it is and seal with an empty tag.
abbrev pub open_crates : Crates
open_crates = record {
  PublicKey = Unit;
  SecretKey = Unit;
  Ciphertext = ℕ;
  encapsulate = λ seed pk. (seed ∷ [], seed);
  decapsulate = λ ct sk. ct ∷ [];
  as_bytes = λ ct. ct ∷ replicate 1567 0;
  from_bytes = first_byte;
  hkdf = λ secret. some secret;
  encrypt = λ key nonce text. some (text ++ replicate 16 0);
  decrypt = λ key nonce sealed. some (take (length sealed - 16) sealed);
  public_key_from_bytes = λ bytes. some tt;
  secret_key_from_bytes = λ bytes. some tt;
}

sealed_by :
    (text sealed : List ℕ)
    → some (text ++ replicate 16 0) ≡ some sealed
    → text ++ replicate 16 0 ≡ sealed
sealed_by text sealed e = cc e

pub open_crates-IsSound : IsSound open_crates
open_crates-IsSound = record {
  length-as_bytes = λ k. omega (arith, length-replicate {A = ℕ} 1567 0);
  from_bytes-as_bytes = λ k. refl;
  length-encrypt = λ key nonce text sealed e.
      ap length (sym (sealed_by text sealed e)) ∙ length-append text (replicate 16 0);
  decrypt-encrypt = λ key nonce text sealed e.
      subst (λ s. some (take (length s - 16) s) ≡ some text) (sealed_by text sealed e)
        (ap some (
          take-append (length (text ++ replicate 16 0) - 16) text (replicate 16 0)
            (omega (arith, length-append text (replicate 16 0)))));
}

abbrev pub nonce : List ℕ
nonce = replicate 24 0

abbrev pub query : List ℕ
query = 1 ∷ 2 ∷ []

abbrev sent : List ℕ
sent = open_crates.as_bytes 9 ++ nonce ++ (query ++ replicate 16 0)

sealed_query : encrypt_query open_crates 9 nonce query tt ≡ ok sent
unfolding encrypt_query derive_symmetric_key
sealed_query = refl

decrypt_query-encrypt_query_example : decrypt_query open_crates sent tt ≡ ok query
decrypt_query-encrypt_query_example =
    decrypt_query-encrypt_query open_crates 9 nonce query tt open_crates-IsSound refl sent
      sealed_query tt (λ seed. refl)

abbrev pub framed : List ℕ
framed = 0 ∷ 2 ∷ query

pub framed-query : write_framed query ≡ ok framed
unfolding write_framed
framed-query = refl

read_framed-write_framed_example : read_framed (framed ++ (7 ∷ [])) ≡ ok (query, 7 ∷ [])
read_framed-write_framed_example =
    read_framed-write_framed query framed (7 ∷ []) (omega arith) framed-query

abbrev pub net : Network
net = record { is_message = λ bytes. true; upstream = λ bytes. some (3 ∷ []) }

pub net-Answers : Answers net query (3 ∷ [])
net-Answers = record {
  asks = refl;
  replies = refl;
  is_response = refl;
  full = omega arith;
  fits = omega arith;
}

lookup_answered_example :
    (reply : List ℕ) × (proxy_connection open_crates 9 nonce tt
        (some (λ s. written open_crates (resolver_connection open_crates net tt s)))
        (some (framed ++ []))
      ≡ ok reply)
    × (read_framed reply ≡ ok (3 ∷ [], []))
lookup_answered_example =
    lookup_answered open_crates open_crates-IsSound 9 nonce query sent tt refl sealed_query net tt
      (3 ∷ []) framed [] (λ seed. refl) net-Answers (omega arith) (omega arith) framed-query

abbrev long_query : List ℕ
long_query = replicate 64000 0

abbrev long_sent : List ℕ
long_sent = open_crates.as_bytes 9 ++ nonce ++ (long_query ++ replicate 16 0)

sealed_long_query : encrypt_query open_crates 9 nonce long_query tt ≡ ok long_sent
unfolding encrypt_query derive_symmetric_key
sealed_long_query = refl

abbrev long_framed : List ℕ
long_framed = to_be_bytes (length long_query % 2 ^ 16) ++ long_query

long_query_refused_example :
    proxy_connection open_crates 9 nonce tt (some (λ s. [])) (some (long_framed ++ []))
    ≡ err (io (payload_too_large (length long_query + overhead)))
long_query_refused_example =
    long_query_refused open_crates open_crates-IsSound 9 nonce long_query long_sent tt refl
      sealed_long_query (λ s. []) long_framed [] (omega arith)
      (write_framed-small long_query (omega arith))
