-- ===== src/Prelude/Text.antt =====
-- The operations of Rust's `str` that the services use, by recursion on the characters of a text.
use Prim.Native.Char.{Char, code}
use Prim.Native.String.{[], ◌∷◌}
use mathlib.Core.List as Lst
use civic_connect.Prelude.Tests.{ltb, leb, eqb, if◌then◌else◌}
use Prim.Native.Nat.{ℕ, zero, suc, ◌+◌, ◌*◌, ◌-◌}
use Prim.Native.String.{String}
use mathlib.Core.Path.{◌≡◌, refl, ap, ◌∙◌}
use mathlib.Core.Logic.{◌⊎◌}
use native.Mathlib.Omega.{arith}
use text.Mathlib.Text.{◌==◌}
use text.Mathlib.TextEquality.{eq_iff}
use civic_connect.Prelude.Lists.{All}
use mathlib.Core.Bool.{Bool, true, false, ◌&&◌, ◌||◌}
use mathlib.Core.Option.{Option, none, some}
use mathlib.Core.List.{List}

-- The text of `format!("{a}{b}")`.
abbrev pub append : String → String → String
append [] t = t
append (c ∷ s) t = c ∷ append s t

abbrev pub is_empty : String → Bool
is_empty [] = true
is_empty (c ∷ s) = false

-- The number of characters.
abbrev pub text_length : String → ℕ
text_length [] = 0
text_length (c ∷ s) = suc (text_length s)

-- The text without its first characters.
abbrev pub skip : ℕ → String → String
skip zero s = s
skip (suc n) [] = []
skip (suc n) (c ∷ s) = skip n s

pub skip-append : (n : ℕ) (s t : String) → text_length s ≡ n → skip n (append s t) ≡ t
skip-append zero [] t h = refl
skip-append zero (c ∷ s) t h = absurd (omega arith)
skip-append (suc n) [] t h = absurd (omega arith)
skip-append (suc n) (c ∷ s) t h = skip-append n s t (omega arith)

pub length-append_text : (s t : String) → text_length (append s t) ≡ text_length s + text_length t
length-append_text [] t = omega arith
length-append_text (c ∷ s) t = omega (arith, length-append_text s t)

-- `str::contains(char)`
unfoldable pub has_char : Char → String → Bool
has_char x [] = false
has_char x (c ∷ s) = eqb (code c) (code x) || has_char x s

-- `str::replace` of one character by another
unfoldable pub replace : Char → Char → String → String
replace x y [] = []
replace x y (c ∷ s) =
    let rest = replace x y s in if eqb (code c) (code x) then y ∷ rest else c ∷ rest

-- Put the character in front of the first piece.
abbrev pub grow : Char → List String → List String
grow c Lst.[] = Lst.◌∷◌ (c ∷ []) Lst.[]
grow c (Lst.◌∷◌ p ps) = Lst.◌∷◌ (c ∷ p) ps

-- `str::split(char)`
unfoldable pub split : Char → String → List String
split x [] = Lst.◌∷◌ [] Lst.[]
split x (c ∷ s) =
    let rest = split x s in if eqb (code c) (code x) then Lst.◌∷◌ [] rest else grow c rest

-- `[String]::join`
unfoldable pub join : Char → List String → String
join x Lst.[] = []
join x (Lst.◌∷◌ p Lst.[]) = p
join x (Lst.◌∷◌ p (Lst.◌∷◌ q ps)) = append p (x ∷ join x (Lst.◌∷◌ q ps))

-- `char::is_whitespace`: the characters of Unicode's White_Space.
unfoldable pub is_whitespace : Char → Bool
is_whitespace c =
    let n = code c in
    leb 9 n && leb n 13
    || eqb n 32
    || eqb n 0x85
    || eqb n 0xa0
    || eqb n 0x1680
    || leb 0x2000 n && leb n 0x200a
    || eqb n 0x2028
    || eqb n 0x2029
    || eqb n 0x202f
    || eqb n 0x205f
    || eqb n 0x3000

unfoldable pub trim_start : String → String
unfolding is_whitespace
trim_start [] = []
trim_start (c ∷ s) = if is_whitespace c then trim_start s else c ∷ s

unfoldable pub trim_end : String → String
unfolding is_whitespace
trim_end [] = []
trim_end (c ∷ s) =
    let rest = trim_end s in if is_empty rest && is_whitespace c then [] else c ∷ rest

-- `str::trim`
unfoldable pub trim : String → String
unfolding trim_start trim_end
trim s = trim_end (trim_start s)

-- `str::strip_suffix(char)`
unfoldable pub strip_suffix : Char → String → Option String
strip_suffix x [] = none
strip_suffix x (c ∷ []) = if eqb (code c) (code x) then some [] else none
strip_suffix x (c ∷ d ∷ s) = elim (strip_suffix x (d ∷ s)) [ none ↦ none | some t ↦ some (c ∷ t) ]

unfoldable pub digits : ℕ → ℕ → String → Option ℕ
digits bound n [] = some n
digits bound n (c ∷ s) =
    let more = n * 10 + (code c - 48) in
    let rest = digits bound more s in
    if leb 48 (code c) && leb (code c) 57 && ltb more bound then rest else none

unfoldable pub digits_of : ℕ → String → Option ℕ
digits_of bound [] = none
digits_of bound (c ∷ s) = digits bound 0 (c ∷ s)

-- `str::parse` for an unsigned type whose values are below the bound: one optional `+`, then at
-- least one digit, without overflow.
unfoldable pub parse_uint : ℕ → String → Option ℕ
unfolding digits digits_of
parse_uint bound [] = none
parse_uint bound (c ∷ s) = if eqb (code c) 43 then digits_of bound s else digits_of bound (c ∷ s)

-- `slice::contains` on texts
unfoldable pub contains : List String → String → Bool
contains Lst.[] a = false
contains (Lst.◌∷◌ x xs) a = x == a || contains xs a

-- The text stands in the list.
abbrev pub In : String → List String → Type 0
In a Lst.[] = ⊥
In a (Lst.◌∷◌ x xs) = (x ≡ a) ⊎ In a xs

-- No text stands in the list twice.
abbrev pub Distinct : List String → Type 0
Distinct Lst.[] = Unit
Distinct (Lst.◌∷◌ x xs) = (¬ In x xs) × Distinct xs

pub contains-In : (xs : List String) (a : String) → contains xs a ≡ true → In a xs
unfolding contains
contains-In Lst.[] a h = cc
contains-In (Lst.◌∷◌ x xs) a h = ground (arith, eq_iff x a, contains-In xs a)

pub In-contains : (xs : List String) (a : String) → In a xs → contains xs a ≡ true
unfolding contains
In-contains Lst.[] a h = absurd h
In-contains (Lst.◌∷◌ x xs) a h = ground (arith, eq_iff x a, In-contains xs a)

-- A piece without the separator is the first piece of the text.
pub split-append :
    (x : Char) (p s : String)
    → has_char x p ≡ false
    → split x (append p (x ∷ s)) ≡ Lst.◌∷◌ p (split x s)
unfolding split has_char
split-append x [] s h = ground arith
split-append x (c ∷ p) s h = ground (arith, split-append x p s)

pub split_whole : (x : Char) (p : String) → has_char x p ≡ false → split x p ≡ Lst.◌∷◌ p Lst.[]
unfolding split has_char
split_whole x [] h = refl
split_whole x (c ∷ p) h = ground (arith, split_whole x p)

-- Joining pieces that hold no separator and splitting again gives the pieces.
pub split-join :
    (x : Char) (p : String) (ps : List String)
    → All (λ q. has_char x q ≡ false) (Lst.◌∷◌ p ps)
    → split x (join x (Lst.◌∷◌ p ps)) ≡ Lst.◌∷◌ p ps
unfolding join
split-join x p Lst.[] h = split_whole x p h.0
split-join x p (Lst.◌∷◌ q ps) h =
    split-append x p (join x (Lst.◌∷◌ q ps)) h.0 ∙ ap (Lst.◌∷◌ p) (split-join x q ps h.1)
