-- ===== src/Odns/Resolver/Duration.antt =====
-- indieweb2-bastion/odns-rs/resolver/src/main.rs: what the interval of the rotation is read as.
use civic_connect.Prelude.{
  ℕ, ◌*◌, ◌%◌, ◌^◌, ◌≤◌, ◌<◌, String, ◌≡◌, refl, ap, ◌∙◌, false, none, some, ok,
}
use native.Mathlib.Omega.{arith}
use Prim.Native.Char.{Char, code}
use Prim.Native.String as Str
use civic_connect.Prelude.Text.{
  append, trim, trim_start, trim_end, is_whitespace, strip_suffix, has_char,
}
use civic_connect.Prelude.Decimal.{
  parse_uint-to_string, IsDecimal-has_char, to_string-IsDecimal, to_string, IsDecimal,
}
use civic_connect.Odns.Resolver.{DurationError, seconds_of, parse_trimmed, parse_duration}

-- No character is white space.
abbrev IsDense : String → Type 0
IsDense Str.[] = Unit
IsDense (Str.◌∷◌ c s) = (is_whitespace c ≡ false) × IsDense s

trim_start-IsDense : (s : String) → IsDense s → trim_start s ≡ s
unfolding trim_start
trim_start-IsDense Str.[] h = refl
trim_start-IsDense (Str.◌∷◌ c s) h = rw (h.0) refl

trim_end-IsDense : (s : String) → IsDense s → trim_end s ≡ s
unfolding trim_end
trim_end-IsDense Str.[] h = refl
trim_end-IsDense (Str.◌∷◌ c s) h = ground (arith, h.0, trim_end-IsDense s h.1)

trim-IsDense : (s : String) → IsDense s → trim s ≡ s
unfolding trim
trim-IsDense s h = ap trim_end (trim_start-IsDense s h) ∙ trim_end-IsDense s h

strip_suffix-append :
    (x : Char) (s : String) → strip_suffix x (append s (Str.◌∷◌ x Str.[])) ≡ some s
unfolding strip_suffix
strip_suffix-append x Str.[] = ground arith
strip_suffix-append x (Str.◌∷◌ c Str.[]) = ground arith
strip_suffix-append x (Str.◌∷◌ c (Str.◌∷◌ d s)) = rw (strip_suffix-append x (Str.◌∷◌ d s)) refl

strip_suffix-none : (x : Char) (s : String) → has_char x s ≡ false → strip_suffix x s ≡ none
unfolding strip_suffix has_char
strip_suffix-none x Str.[] h = refl
strip_suffix-none x (Str.◌∷◌ c Str.[]) h = ground arith
strip_suffix-none x (Str.◌∷◌ c (Str.◌∷◌ d s)) h =
    rw (strip_suffix-none x (Str.◌∷◌ d s) (ground arith)) refl

digit_dense : (c : Char) → 48 ≤ code c → code c ≤ 57 → is_whitespace c ≡ false
unfolding is_whitespace
digit_dense c h k = ground arith

IsDecimal-IsDense : (s t : String) → IsDecimal s → IsDense t → IsDense (append s t)
IsDecimal-IsDense Str.[] t h k = k
IsDecimal-IsDense (Str.◌∷◌ c s) t h k = (digit_dense c h.0 h.1, IsDecimal-IsDense s t h.2 k)

unit-IsDense :
    (n : ℕ) (c : Char) → is_whitespace c ≡ false → IsDense (append (to_string n) (Str.◌∷◌ c Str.[]))
unit-IsDense n c h = IsDecimal-IsDense (to_string n) _ (to_string-IsDecimal n) (h, tt)

has_char-append :
    (x : Char) (s t : String)
    → has_char x s ≡ false
    → has_char x t ≡ false
    → has_char x (append s t) ≡ false
unfolding has_char
has_char-append x Str.[] t h k = k
has_char-append x (Str.◌∷◌ c s) t h k = ground (arith, has_char-append x s t)

-- A number with a unit holds no letter of another unit.
without :
    (x : Char) (n : ℕ) (t : String)
    → 57 < code x
    → has_char x t ≡ false
    → strip_suffix x (append (to_string n) t) ≡ none
without x n t h k = strip_suffix-none x (append (to_string n) t) (
    has_char-append x (to_string n) t (IsDecimal-has_char x (to_string n) (to_string-IsDecimal n) h)
      k)

seconds_of-to_string :
    (e : DurationError) (unit n : ℕ)
    → n < 2 ^ 64
    → seconds_of e unit (to_string n) ≡ ok (n * unit % 2 ^ 64)
unfolding seconds_of
seconds_of-to_string e unit n h = rw (parse_uint-to_string (2 ^ 64) n h) refl

hours : (n : ℕ) → n < 2 ^ 64 → parse_duration (append (to_string n) "h") ≡ ok (n * 3600 % 2 ^ 64)
unfolding parse_duration parse_trimmed is_whitespace
hours n h =
    ap parse_trimmed (trim-IsDense (append (to_string n) "h") (unit-IsDense n "h" refl))
    ∙ rw (parse_trimmed, strip_suffix-append "h" (to_string n)) (seconds_of-to_string _ 3600 n h)

minutes : (n : ℕ) → n < 2 ^ 64 → parse_duration (append (to_string n) "m") ≡ ok (n * 60 % 2 ^ 64)
unfolding parse_duration parse_trimmed is_whitespace has_char
minutes n h =
    ap parse_trimmed (trim-IsDense (append (to_string n) "m") (unit-IsDense n "m" refl))
    ∙ rw
        (parse_trimmed, without "h" n "m" (omega arith) refl, strip_suffix-append "m" (to_string n))
        (seconds_of-to_string _ 60 n h)

seconds : (n : ℕ) → n < 2 ^ 64 → parse_duration (append (to_string n) "s") ≡ ok n
unfolding parse_duration parse_trimmed is_whitespace has_char
seconds n h =
    ap parse_trimmed (trim-IsDense (append (to_string n) "s") (unit-IsDense n "s" refl))
    ∙ rw
        (
          parse_trimmed,
          without "h" n "s" (omega arith) refl,
          without "m" n "s" (omega arith) refl,
          strip_suffix-append "s" (to_string n),
        )
        (seconds_of-to_string _ 1 n h ∙ ap ok (omega arith))

-- A number below 2^64 that is followed by h or m is that many hours or minutes, modulo 2^64 seconds,
-- and one that is followed by s is that many seconds.
pub parse_duration-to_string :
    (n : ℕ)
    → n < 2 ^ 64
    → (parse_duration (append (to_string n) "h") ≡ ok (n * 3600 % 2 ^ 64))
      × (parse_duration (append (to_string n) "m") ≡ ok (n * 60 % 2 ^ 64))
      × (parse_duration (append (to_string n) "s") ≡ ok n)
parse_duration-to_string n h = (hours n h, minutes n h, seconds n h)
