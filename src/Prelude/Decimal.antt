-- ===== src/Prelude/Decimal.antt =====
-- Decimal texts of the unsigned types: `to_string`, and that `str::parse` reads it back.
use Prim.Native.Char.{Char, code}
use Prim.Native.Nat.{ℕ, zero, suc, ◌+◌, ◌-◌, ◌*◌, ◌/◌, ◌%◌, ◌≤◌, ◌<◌}
use Prim.Native.String.{String, [], ◌∷◌}
use mathlib.Core.Path.{◌≡◌, refl, sym, ap, subst, ◌∙◌}
use mathlib.Core.Logic.{◌≢◌, inl, inr}
use mathlib.Core.Bool.{true, false}
use mathlib.Core.Option.{some}
use native.Mathlib.Omega.{arith}
use civic_connect.Prelude.Tests.{ltb, if◌then◌else◌, Bool-cases}
use civic_connect.Prelude.Text.{append, has_char, digits, digits_of, parse_uint}

abbrev pub digit : ℕ → Char
digit zero = "0"
digit (suc zero) = "1"
digit (suc (suc zero)) = "2"
digit (suc (suc (suc zero))) = "3"
digit (suc (suc (suc (suc zero)))) = "4"
digit (suc (suc (suc (suc (suc zero))))) = "5"
digit (suc (suc (suc (suc (suc (suc zero)))))) = "6"
digit (suc (suc (suc (suc (suc (suc (suc zero))))))) = "7"
digit (suc (suc (suc (suc (suc (suc (suc (suc zero)))))))) = "8"
digit (suc (suc (suc (suc (suc (suc (suc (suc (suc d))))))))) = "9"

-- As many digits as the fuel at most; a number below the fuel has fewer.
show_digits : ℕ → ℕ → String
show_digits zero n = []
show_digits (suc f) n =
    let front = show_digits f (n / 10) in
    if ltb n 10 then digit n ∷ [] else append front (digit (n % 10) ∷ [])

-- `to_string` of an unsigned number
unfoldable pub to_string : ℕ → String
unfolding show_digits
to_string n = show_digits (suc n) n

pub code-digit : (d : ℕ) → d < 10 → code (digit d) ≡ 48 + d
code-digit zero h = refl
code-digit (suc zero) h = refl
code-digit (suc (suc zero)) h = refl
code-digit (suc (suc (suc zero))) h = refl
code-digit (suc (suc (suc (suc zero)))) h = refl
code-digit (suc (suc (suc (suc (suc zero))))) h = refl
code-digit (suc (suc (suc (suc (suc (suc zero)))))) h = refl
code-digit (suc (suc (suc (suc (suc (suc (suc zero))))))) h = refl
code-digit (suc (suc (suc (suc (suc (suc (suc (suc zero)))))))) h = refl
code-digit (suc (suc (suc (suc (suc (suc (suc (suc (suc zero))))))))) h = refl
code-digit (suc (suc (suc (suc (suc (suc (suc (suc (suc (suc d)))))))))) h = absurd (omega arith)

-- Every character is a digit.
abbrev pub IsDecimal : String → Type 0
IsDecimal [] = Unit
IsDecimal (c ∷ s) = (48 ≤ code c) × (code c ≤ 57) × IsDecimal s

append-IsDecimal : (s t : String) → IsDecimal s → IsDecimal t → IsDecimal (append s t)
append-IsDecimal [] t h k = k
append-IsDecimal (c ∷ s) t h k = (h.0, h.1, append-IsDecimal s t h.2 k)

digit-IsDecimal : (d : ℕ) → d < 10 → IsDecimal (digit d ∷ [])
digit-IsDecimal d h = (omega (arith, code-digit d h), omega (arith, code-digit d h), tt)

show_digits_one : (f n : ℕ) → ltb n 10 ≡ true → show_digits (suc f) n ≡ digit n ∷ []
unfolding show_digits
show_digits_one f n h = rw h refl

show_digits_more :
    (f n : ℕ)
    → ltb n 10 ≡ false
    → show_digits (suc f) n ≡ append (show_digits f (n / 10)) (digit (n % 10) ∷ [])
unfolding show_digits
show_digits_more f n h = rw h refl

show_digits-IsDecimal : (f n : ℕ) → IsDecimal (show_digits f n)
unfolding show_digits
show_digits-IsDecimal zero n = tt
show_digits-IsDecimal (suc f) n = elim (Bool-cases (ltb n 10)) [
  | inl h ↦ subst IsDecimal (sym (show_digits_one f n h)) (digit-IsDecimal n (ground arith))
  | inr h ↦ subst IsDecimal (sym (show_digits_more f n h)) (
      append-IsDecimal (show_digits f (n / 10)) (digit (n % 10) ∷ [])
        (show_digits-IsDecimal f (n / 10)) (digit-IsDecimal (n % 10) (omega arith)))
]

pub to_string-IsDecimal : (n : ℕ) → IsDecimal (to_string n)
unfolding to_string
to_string-IsDecimal n = show_digits-IsDecimal (suc n) n

pub IsDecimal-has_char : (x : Char) (s : String) → IsDecimal s → 57 < code x → has_char x s ≡ false
unfolding has_char
IsDecimal-has_char x [] h k = refl
IsDecimal-has_char x (c ∷ s) h k = ground (arith, IsDecimal-has_char x s h.2 k)

digits-append :
    (bound n m : ℕ) (s t : String)
    → digits bound n s ≡ some m
    → digits bound n (append s t) ≡ digits bound m t
unfolding digits
digits-append bound n m [] t h = ap (λ k. digits bound k t) (cc h)
digits-append bound n m (c ∷ s) t h =
    ground (arith, digits-append bound (n * 10 + (code c - 48)) m s t)

digits-digit :
    (bound n d : ℕ)
    → d < 10
    → n * 10 + d < bound
    → digits bound n (digit d ∷ []) ≡ some (n * 10 + d)
unfolding digits
digits-digit bound n d h k = ground (arith, code-digit d h)

digits-show_digits : (bound f n : ℕ) → n < f → n < bound → digits bound 0 (show_digits f n) ≡ some n
digits-show_digits bound zero n h k = absurd (omega arith)
digits-show_digits bound (suc f) n h k = elim (Bool-cases (ltb n 10)) [
  | inl e ↦
      ap (digits bound 0) (show_digits_one f n e)
      ∙ digits-digit bound 0 n (ground arith) (omega arith)
      ∙ ap some (omega arith)
  | inr e ↦
      (let big : 10 ≤ n = ground arith in
        ap (digits bound 0) (show_digits_more f n e)
        ∙ digits-append bound 0 (n / 10) (show_digits f (n / 10)) (digit (n % 10) ∷ [])
            (digits-show_digits bound f (n / 10) (omega arith) (omega arith))
        ∙ digits-digit bound (n / 10) (n % 10) (omega arith) (omega arith)
        ∙ ap some (omega arith))
]

-- A decimal text that is not empty is parsed from its first digit.
parse_uint-IsDecimal :
    (bound : ℕ) (s : String) → s ≢ [] → IsDecimal s → parse_uint bound s ≡ digits bound 0 s
unfolding parse_uint digits_of
parse_uint-IsDecimal bound [] full h = absurd (full refl)
parse_uint-IsDecimal bound (c ∷ s) full h = ground arith

append_full : (s : String) (c : Char) (t : String) → append s (c ∷ t) ≢ []
append_full [] c t = cc
append_full (d ∷ s) c t = cc

to_string_full : (n : ℕ) → to_string n ≢ []
unfolding to_string
to_string_full n = elim (Bool-cases (ltb n 10)) [
  | inl h ↦ subst (λ s. s ≢ []) (sym (show_digits_one n n h)) (cc)
  | inr h ↦
      subst (λ s. s ≢ []) (sym (show_digits_more n n h))
        (append_full (show_digits n (n / 10)) (digit (n % 10)) [])
]

-- A number below the bound of its type is read back from its decimal text.
pub parse_uint-to_string : (bound n : ℕ) → n < bound → parse_uint bound (to_string n) ≡ some n
unfolding to_string
parse_uint-to_string bound n h =
    parse_uint-IsDecimal bound (to_string n) (to_string_full n) (to_string-IsDecimal n)
    ∙ digits-show_digits bound (suc n) n (omega arith) h

pub to_string_injective : (n m : ℕ) → to_string n ≡ to_string m → n ≡ m
to_string_injective n m e =
    let b = suc (n + m) in
    cc (
      ap (parse_uint b) e,
      parse_uint-to_string b n (omega arith),
      parse_uint-to_string b m (omega arith),
    )
