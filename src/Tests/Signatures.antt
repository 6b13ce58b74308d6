-- ===== src/Tests/Signatures.antt =====
-- Inputs for indieweb2-bastion/odns-rs/common/src/signatures.rs.
use native.Mathlib.Omega.{arith}
use civic_connect.Prelude.{
  ℕ, zero, suc, ◌%◌, ◌<◌, ◌≡◌, refl, Bool, true, false, not, Option, none, some, List, [], ◌∷◌, eqb,
  replicate, length-replicate, ok, ◌>>=◌,
}
use civic_connect.Prelude.Bytes.{IsBytes}
use civic_connect.Odns.Signatures.{
  Scheme, IsScheme, generate_hybrid_keypair, hybrid_sign, hybrid_verify, key_to_bytes,
  key_from_bytes, sig_to_bytes, sig_from_bytes, public_key,
}
use civic_connect.Odns.Signatures.Hybrid.{signed_verifies}

abbrev bit : Bool → ℕ
bit false = 0
bit true = 1

abbrev first_bit : List ℕ → Option Bool
first_bit [] = none
first_bit (b ∷ bs) = some (eqb b 1)

abbrev equal : Bool → Bool → Bool
equal false b = not b
equal true b = b

-- A scheme in which a signature is the key that signed.
abbrev pub echo : ℕ → ℕ → Scheme
echo pk_rest sig_rest = record {
  PublicKey = Bool;
  SecretKey = Bool;
  Signature = Bool;
  generate = λ seed. (eqb (seed % 2) 1, eqb (seed % 2) 1);
  sign = λ message sk. sk;
  verify = λ sig message pk. equal sig pk;
  key_bytes = λ k. bit k ∷ replicate pk_rest 0;
  key_from_bytes = first_bit;
  sig_bytes = λ g. bit g ∷ replicate sig_rest 0;
  sig_from_bytes = first_bit;
}

equal_same : (b : Bool) → equal b b ≡ true
equal_same false = refl
equal_same true = refl

eqb-bit : (b : Bool) → some (eqb (bit b) 1) ≡ some b
eqb-bit false = refl
eqb-bit true = refl

replicate-IsBytes : (n : ℕ) → IsBytes (replicate n 0)
replicate-IsBytes zero = tt
replicate-IsBytes (suc n) = (omega arith, replicate-IsBytes n)

bit_small : (b : Bool) → bit b < 256
bit_small false = omega arith
bit_small true = omega arith

pub echo-IsScheme : (a b : ℕ) → IsScheme (echo a b) (suc a) (suc b)
echo-IsScheme a b = record {
  length-key_bytes = λ k. omega (arith, length-replicate {A = ℕ} a 0);
  key_from_bytes-key_bytes = eqb-bit;
  length-sig_bytes = λ g. omega (arith, length-replicate {A = ℕ} b 0);
  sig_from_bytes-sig_bytes = eqb-bit;
  key_bytes-IsBytes = λ k. (bit_small k, replicate-IsBytes a);
  sig_bytes-IsBytes = λ g. (bit_small g, replicate-IsBytes b);
  verify-sign = λ seed message. equal_same (eqb (seed % 2) 1);
}

signed_verifies_example :
    (do
      let keypair = generate_hybrid_keypair (echo 56 113) (echo 2591 4626) 3 4
      key ← public_key (echo 56 113) (echo 2591 4626) keypair
      received ←
          key_from_bytes
            (echo 56 113)
            (echo 2591 4626)
            (key_to_bytes (echo 56 113) (echo 2591 4626) key)
      signature ← sig_from_bytes (echo 56 113) (echo 2591 4626) (
          sig_to_bytes
            (echo 56 113)
            (echo 2591 4626)
            (hybrid_sign (echo 56 113) (echo 2591 4626) (1 ∷ []) keypair))
      hybrid_verify (echo 56 113) (echo 2591 4626) (1 ∷ []) signature received)
    ≡ ok tt
signed_verifies_example =
    signed_verifies (echo 56 113) (echo 2591 4626) (echo-IsScheme 56 113) (echo-IsScheme 2591 4626)
      3 4 (1 ∷ [])
