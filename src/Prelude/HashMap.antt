-- ===== src/Prelude/HashMap.antt =====
-- Rust's `HashMap<String, V>` as an association list in which an insertion replaces in place.
-- The order of `values` is not specified by Rust; the model keeps the order of insertion.
use Prim.Native.String.{String}
use mathlib.Core.Path.{◌≡◌, refl, subst}
use mathlib.Core.Logic.{inl, inr}
use mathlib.Core.Option.{Option, none, some}
use mathlib.Core.List.{List, [], ◌∷◌, map}
use native.Mathlib.Omega.{arith}
use text.Mathlib.Text.{◌==◌}
use text.Mathlib.TextEquality.{eq_iff}
use civic_connect.Prelude.Tests.{if◌then◌else◌, Bool-cases}
use civic_connect.Prelude.Lists.{All}

abbrev pub HashMap {ℓ} : Type ℓ → Type ℓ
HashMap V = List (String × V)

module _ {ℓ} {V : Type ℓ} where
  unfoldable pub get : String → HashMap V → Option V
  get key [] = none
  get key (entry ∷ rest) = if entry.0 == key then some entry.1 else get key rest

  -- `HashMap::insert`: the value of a key that is there is replaced.
  unfoldable pub insert : String → V → HashMap V → HashMap V
  insert key value [] = (key, value) ∷ []
  insert key value (entry ∷ rest) =
      if entry.0 == key then (key, value) ∷ rest else entry ∷ insert key value rest

  abbrev pub values : HashMap V → List V
  values = map λ entry. entry.1

  pub get-insert :
      (key other : String) (value : V) (table : HashMap V)
      → get other (insert key value table) ≡ (if key == other then some value else get other table)
  unfolding get insert
  get-insert key other value [] = refl
  get-insert key other value (entry ∷ rest) = ground (
    arith,
    get-insert key other value rest,
    eq_iff entry.0 key,
    eq_iff entry.0 other,
    eq_iff key other,
  )

module _ {ℓ κ} {V : Type ℓ} (P : V → Type κ) where
  pub All-insert :
      (key : String) (value : V) (table : HashMap V)
      → All P (values table)
      → P value
      → All P (values (insert key value table))
  unfolding insert
  All-insert key value [] h p = (p, tt)
  All-insert key value (entry ∷ rest) h p =
      let tail = All-insert key value rest h.1 p in ground (arith, tail)

  pub All-get :
      (key : String) (value : V) (table : HashMap V)
      → All P (values table)
      → get key table ≡ some value
      → P value
  unfolding get
  All-get key value [] h e = cc
  All-get key value (entry ∷ rest) h e = elim (Bool-cases (entry.0 == key)) [
    | inl same ↦ (let e' : entry.1 ≡ value = ground arith in subst P e' h.0)
    | inr other ↦ All-get key value rest h.1 (rw other at e)
  ]
