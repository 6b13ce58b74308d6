-- ===== src/Tests/Codecs.antt =====
-- Codecs on which the witnesses run: both encodings are hexadecimal, and the digest of bytes is that
-- of their sum.
use civic_connect.Prelude.{
  ℕ, zero, suc, ◌+◌, ◌-◌, ◌*◌, ◌/◌, ◌%◌, ◌<◌, String, ◌≡◌, refl, ap, Option, none, some, List, [],
  ◌∷◌, ◌++◌, leb, if◌then◌else◌, length, replicate,
}
use native.Mathlib.Omega.{arith}
use Prim.Native.Char.{Char, code}
use Prim.Native.String as Str
use civic_connect.Prelude.Text.{append, text_length}
use civic_connect.Prelude.Bytes.{IsBytes, Codecs, IsCodec}

abbrev nibble : ℕ → Char
nibble zero = "0"
nibble (suc zero) = "1"
nibble (suc (suc zero)) = "2"
nibble (suc (suc (suc zero))) = "3"
nibble (suc (suc (suc (suc zero)))) = "4"
nibble (suc (suc (suc (suc (suc zero))))) = "5"
nibble (suc (suc (suc (suc (suc (suc zero)))))) = "6"
nibble (suc (suc (suc (suc (suc (suc (suc zero))))))) = "7"
nibble (suc (suc (suc (suc (suc (suc (suc (suc zero)))))))) = "8"
nibble (suc (suc (suc (suc (suc (suc (suc (suc (suc zero))))))))) = "9"
nibble (suc (suc (suc (suc (suc (suc (suc (suc (suc (suc zero)))))))))) = "a"
nibble (suc (suc (suc (suc (suc (suc (suc (suc (suc (suc (suc zero))))))))))) = "b"
nibble (suc (suc (suc (suc (suc (suc (suc (suc (suc (suc (suc (suc zero)))))))))))) = "c"
nibble (suc (suc (suc (suc (suc (suc (suc (suc (suc (suc (suc (suc (suc zero))))))))))))) = "d"
nibble (suc (suc (suc (suc (suc (suc (suc (suc (suc (suc (suc (suc (suc (suc zero)))))))))))))) =
    "e"
nibble (suc (suc (suc (suc (suc (suc (suc (suc (suc (suc (suc (suc (suc (suc (suc n))))))))))))))) =
    "f"

abbrev value : Char → ℕ
value c = if leb 97 (code c) then code c - 87 else code c - 48

abbrev pub hex : List ℕ → String
hex [] = Str.[]
hex (b ∷ bs) = Str.◌∷◌ (nibble (b / 16)) (Str.◌∷◌ (nibble (b % 16)) (hex bs))

-- The digits of the low half of a byte are read after those of the high half.
abbrev pub unhex : String → Option (List ℕ)
unhex Str.[] = some []
unhex (Str.◌∷◌ a Str.[]) = none
unhex (Str.◌∷◌ a (Str.◌∷◌ b s)) = elim (unhex s) [
  | none ↦ none
  | some bs ↦ some ((value a * 16 + value b) ∷ bs)
]

abbrev sum : List ℕ → ℕ
sum [] = 0
sum (b ∷ bs) = b + sum bs

abbrev pub hex_codecs : Codecs
hex_codecs = record {
  hex_encode = hex;
  hex_decode = unhex;
  base64_encode = hex;
  base64_decode = unhex;
  blake3 = λ b. (sum b % 256) ∷ replicate 31 0;
}

value-nibble : (n : ℕ) → n < 16 → value (nibble n) ≡ n
value-nibble zero h = refl
value-nibble (suc zero) h = refl
value-nibble (suc (suc zero)) h = refl
value-nibble (suc (suc (suc zero))) h = refl
value-nibble (suc (suc (suc (suc zero)))) h = refl
value-nibble (suc (suc (suc (suc (suc zero))))) h = refl
value-nibble (suc (suc (suc (suc (suc (suc zero)))))) h = refl
value-nibble (suc (suc (suc (suc (suc (suc (suc zero))))))) h = refl
value-nibble (suc (suc (suc (suc (suc (suc (suc (suc zero)))))))) h = refl
value-nibble (suc (suc (suc (suc (suc (suc (suc (suc (suc zero))))))))) h = refl
value-nibble (suc (suc (suc (suc (suc (suc (suc (suc (suc (suc zero)))))))))) h = refl
value-nibble (suc (suc (suc (suc (suc (suc (suc (suc (suc (suc (suc zero))))))))))) h = refl
value-nibble (suc (suc (suc (suc (suc (suc (suc (suc (suc (suc (suc (suc zero)))))))))))) h = refl
value-nibble (suc (suc (suc (suc (suc (suc (suc (suc (suc (suc (suc (suc (suc zero))))))))))))) h =
    refl
value-nibble
      (suc (suc (suc (suc (suc (suc (suc (suc (suc (suc (suc (suc (suc (suc zero)))))))))))))) h =
    refl
value-nibble
      (suc (suc (suc (suc (suc (suc (suc (suc (suc (suc (suc (suc (suc (suc (suc zero)))))))))))))))
      h =
    refl
value-nibble
      (suc
        (suc (suc (suc (suc (suc (suc (suc (suc (suc (suc (suc (suc (suc (suc (suc n))))))))))))))))
      h =
    absurd (omega arith)

unhex-hex : (b : List ℕ) → IsBytes b → unhex (hex b) ≡ some b
unhex-hex [] h = refl
unhex-hex (b ∷ bs) h =
    rw
      (
        unhex-hex bs h.1,
        value-nibble (b / 16) (omega (arith, h.0)),
        value-nibble (b % 16) (omega arith),
      )
      (ap (λ x. some (x ∷ bs)) (omega arith))

hex-append : (a b : List ℕ) → hex (a ++ b) ≡ append (hex a) (hex b)
hex-append [] b = refl
hex-append (x ∷ a) b =
    ap (λ s. Str.◌∷◌ (nibble (x / 16)) (Str.◌∷◌ (nibble (x % 16)) s)) (hex-append a b)

text_length-hex : (b : List ℕ) → text_length (hex b) ≡ 2 * length b
text_length-hex [] = refl
text_length-hex (x ∷ b) = omega (arith, text_length-hex b)

replicate-IsBytes : (n : ℕ) → IsBytes (replicate n 0)
replicate-IsBytes zero = tt
replicate-IsBytes (suc n) = (omega arith, replicate-IsBytes n)

pub hex_codecs-IsCodec : IsCodec hex_codecs
hex_codecs-IsCodec = record {
  hex_decode-hex_encode = unhex-hex;
  hex_encode-append = hex-append;
  length-hex_encode = text_length-hex;
  base64_decode-base64_encode = unhex-hex;
  blake3-IsBytes = λ b. (omega arith, replicate-IsBytes 31);
  length-blake3 = λ b. refl;
}
