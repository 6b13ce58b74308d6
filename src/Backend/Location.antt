-- ===== src/Backend/Location.antt =====
-- backend/rust-api/src/location/mod.rs: the cells of the H3 grid, which the crate h3o has.
pub mod Neighbors
pub mod Distance
use civic_connect.Prelude.{
  ℕ, String, Bool, true, false, not, Option, none, some, List, [], ◌∷◌, ◌==◌, ltb, eqb,
  if◌then◌else◌, length,
}
use civic_connect.Prelude.Bytes.{as_bytes}

-- What is used of the crate.
pub record H3 : Type 1 where
  pub Cell : Type 0
  pub parse : String → Option Cell
  pub show : Cell → String
  pub grid_disk : ℕ → Cell → List Cell

abbrev pub is_some {ℓ} : {A : Type ℓ} → Option A → Bool
is_some (some x) = true
is_some none = false

module _ (h : H3) where
  unfoldable pub is_valid_cell : String → Bool
  is_valid_cell cell_str =
      if not (eqb (length (as_bytes cell_str)) 15) then false else is_some (h.parse cell_str)

  -- The texts of the cells, without the given text.
  abbrev pub others : String → List h.Cell → List String
  others cell_str [] = []
  others cell_str (c ∷ cs) =
      let rest = others cell_str cs in if not (h.show c == cell_str) then h.show c ∷ rest else rest

  unfoldable pub get_neighbors : String → ℕ → List String
  get_neighbors cell_str rings = elim (h.parse cell_str) [
    | none ↦ cell_str ∷ []
    | some cell ↦ cell_str ∷ (if ltb 0 rings then others cell_str (h.grid_disk rings cell) else [])
  ]
