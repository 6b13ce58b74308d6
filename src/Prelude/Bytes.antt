-- ===== src/Prelude/Bytes.antt =====
-- The bytes of a text, and the third-party codecs of bytes.
use Prim.Native.Char.{code}
use Prim.Native.Nat.{ℕ, ◌+◌, ◌*◌, ◌/◌, ◌%◌, ◌<◌}
use Prim.Native.String as Str
use Prim.Native.String.{String}
use mathlib.Core.List.{List, [], ◌∷◌, ◌++◌}
use mathlib.Core.Path.{◌≡◌}
use mathlib.Core.Option.{Option, some}
use civic_connect.Prelude.Tests.{ltb, if◌then◌else◌}
use civic_connect.Prelude.Lists.{All, length}
use civic_connect.Prelude.Text.{append, text_length}

-- The UTF-8 encoding of a code point.
abbrev pub utf8 : ℕ → List ℕ
utf8 n =
    if ltb n 0x80
    then n ∷ []
    else if ltb n 0x800
    then (0xc0 + n / 64) ∷ (0x80 + n % 64) ∷ []
    else if ltb n 0x10000
    then (0xe0 + n / 4096) ∷ (0x80 + n / 64 % 64) ∷ (0x80 + n % 64) ∷ []
    else (0xf0 + n / 262144) ∷ (0x80 + n / 4096 % 64) ∷ (0x80 + n / 64 % 64) ∷ (0x80 + n % 64) ∷ []

-- `str::as_bytes`
unfoldable pub as_bytes : String → List ℕ
as_bytes Str.[] = []
as_bytes (Str.◌∷◌ c s) = utf8 (code c) ++ as_bytes s

-- Bytes are numbers below 256.
abbrev pub IsBytes : List ℕ → Type 0
IsBytes = All (λ b. b < 256)

-- The crates hex, base64 and blake3, on bytes.
pub record Codecs : Type 0 where
  pub hex_encode : List ℕ → String
  pub hex_decode : String → Option (List ℕ)
  pub base64_encode : List ℕ → String
  pub base64_decode : String → Option (List ℕ)
  pub blake3 : List ℕ → List ℕ

-- What the crates document: bytes are read back from either encoding, hexadecimal text has two
-- characters for each byte and is that of the parts, and a digest has 32 bytes.
pub record IsCodec (c : Codecs) : Type 0 where
  pub hex_decode-hex_encode : (b : List ℕ) → IsBytes b → c.hex_decode (c.hex_encode b) ≡ some b
  pub hex_encode-append :
      (a b : List ℕ) → c.hex_encode (a ++ b) ≡ append (c.hex_encode a) (c.hex_encode b)
  pub length-hex_encode : (b : List ℕ) → text_length (c.hex_encode b) ≡ 2 * length b
  pub base64_decode-base64_encode :
      (b : List ℕ) → IsBytes b → c.base64_decode (c.base64_encode b) ≡ some b
  pub blake3-IsBytes : (b : List ℕ) → IsBytes (c.blake3 b)
  pub length-blake3 : (b : List ℕ) → length (c.blake3 b) ≡ 32
