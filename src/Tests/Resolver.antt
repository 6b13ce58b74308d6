-- ===== src/Tests/Resolver.antt =====
-- Inputs for indieweb2-bastion/odns-rs/resolver/src/main.rs.
use civic_connect.Prelude.{
  none, ℕ, ◌+◌, ◌*◌, ◌%◌, ◌^◌, ◌≡◌, refl, some, List, [], ◌∷◌, ◌++◌, replicate, ok,
}
use native.Mathlib.Omega.{arith}
use civic_connect.Prelude.Text.{append, trim, strip_suffix, parse_uint}
use civic_connect.Prelude.Decimal.{to_string}
use civic_connect.Odns.Protocol.{read_framed}
use civic_connect.Odns.Crypto.{Crates, IsSound, derive_symmetric_key, encrypt_query}
use civic_connect.Odns.Connection.{resolver_connection, written, proxy_connection}
use civic_connect.Odns.Resolver.{
  parse_duration, Resolver, announce_keys, install_key, Run, start, more, announcement,
  installation, connection,
}
use civic_connect.Odns.Resolver.Duration.{parse_duration-to_string}
use civic_connect.Odns.Resolver.Rotation.{Run-lookup_answered}
use civic_connect.Tests.Odns.{
  open_crates, open_crates-IsSound, net, net-Answers, nonce, query, framed, framed-query,
}

-- As `open_crates`, with a number as each key: a secret that was sent to another key is another secret.
abbrev keyed_crates : Crates
keyed_crates = record {
  PublicKey = ℕ;
  SecretKey = ℕ;
  Ciphertext = ℕ;
  encapsulate = λ seed pk. ((seed + pk) ∷ [], seed);
  decapsulate = λ ct sk. (ct + sk) ∷ [];
  as_bytes = open_crates.as_bytes;
  from_bytes = open_crates.from_bytes;
  hkdf = open_crates.hkdf;
  encrypt = open_crates.encrypt;
  decrypt = open_crates.decrypt;
  public_key_from_bytes = λ bytes. some 0;
  secret_key_from_bytes = λ bytes. some 0;
}

keyed_crates-IsSound : IsSound keyed_crates
keyed_crates-IsSound = record {
  length-as_bytes = open_crates-IsSound.length-as_bytes;
  from_bytes-as_bytes = open_crates-IsSound.from_bytes-as_bytes;
  length-encrypt = open_crates-IsSound.length-encrypt;
  decrypt-encrypt = open_crates-IsSound.decrypt-encrypt;
}

abbrev same_key : ℕ → ℕ × ℕ
same_key seed = (seed, seed)

abbrev resting : ℕ → Resolver keyed_crates same_key
resting key = record { secret_key = key; announced = key; pending = none }

abbrev turning : Resolver keyed_crates same_key
turning = record { secret_key = 4; announced = 5; pending = some 5 }

-- A rotation, within which a connection sends nothing, and the announcement and installation of another.
run : Run keyed_crates same_key net (resting 4) (resting 6)
unfolding announce_keys install_key resolver_connection read_framed
run =
    more (record { secret_key = 5; announced = 6; pending = some 6 }) (resting 6)
      (more (resting 5) (record { secret_key = 5; announced = 6; pending = some 6 })
        (more turning (resting 5)
          (more turning turning (more (resting 4) turning start (announcement 5 (resting 4) refl))
            (connection [] [] turning refl))
          (installation 5 turning refl))
        (announcement 6 (resting 5) refl))
      (installation 6 (record { secret_key = 5; announced = 6; pending = some 6 }) refl)

abbrev sealed : List ℕ
sealed = keyed_crates.as_bytes 9 ++ nonce ++ (query ++ replicate 16 0)

keyed_seal : encrypt_query keyed_crates 9 nonce query 6 ≡ ok sealed
unfolding encrypt_query derive_symmetric_key
keyed_seal = refl

Run-lookup_answered_example :
    (reply : List ℕ) × (proxy_connection keyed_crates 9 nonce 6
        (some (λ s. written keyed_crates (resolver_connection keyed_crates net 6 s)))
        (some (framed ++ []))
      ≡ ok reply)
    × (read_framed reply ≡ ok (3 ∷ [], []))
Run-lookup_answered_example =
    Run-lookup_answered keyed_crates same_key (λ seed s. refl) net keyed_crates-IsSound (resting 4)
      (resting 6) 9 nonce query sealed (3 ∷ []) framed [] run (λ s. refl) refl refl keyed_seal
      net-Answers (omega arith) (omega arith) framed-query

parse_duration-to_string_example :
    (parse_duration (append (to_string 24) "h") ≡ ok (24 * 3600 % 2 ^ 64))
    × (parse_duration (append (to_string 24) "m") ≡ ok (24 * 60 % 2 ^ 64))
    × (parse_duration (append (to_string 24) "s") ≡ ok 24)
parse_duration-to_string_example = parse_duration-to_string 24 (omega arith)

-- The product of 3600 and this number is 2 ^ 64 + 3584.
wraps_around : parse_duration "5124095576030432h" ≡ ok 3584
unfolding parse_duration strip_suffix trim parse_uint
wraps_around = refl
