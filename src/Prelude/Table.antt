-- ===== src/Prelude/Table.antt =====
-- Rust's `HashMap` where the program never lists it: a function from keys to optional values, over
-- the Boolean equality of the keys.
use mathlib.Core.Bool.{Bool}
use mathlib.Core.Option.{Option, none, some}
use civic_connect.Prelude.Tests.{if◌then◌else◌}

abbrev pub Table {ℓ κ} : Type ℓ → Type κ → Type (ℓ ⊔ κ)
Table K V = K → Option V

abbrev pub keep {ℓ} : {V : Type ℓ} → (V → Bool) → Option V → Option V
keep p none = none
keep p (some v) = if p v then some v else none

-- `entry(k).or_insert_with(|| v)` at the entry's present value: the value that is then in the table.
abbrev pub or_insert {ℓ} : {V : Type ℓ} → Option V → V → V
or_insert none v = v
or_insert (some w) v = w

module _ {ℓ κ} {K : Type ℓ} {V : Type κ} where
  abbrev pub new_table : Table K V
  new_table k = none

  -- `HashMap::insert`
  abbrev pub put : (K → K → Bool) → K → V → Table K V → Table K V
  put same k v t j = if same k j then some v else t j

  -- `HashMap::retain`
  abbrev pub retain : (V → Bool) → Table K V → Table K V
  retain p t k = keep p (t k)
