-- ===== src/Tests/Backend.antt =====
-- Inputs for backend/rust-api/src.
use civic_connect.Prelude.{
  List, String, ◌≡◌, refl, ◌≢◌, inl, inr, Bool, true, false, none, some, [], ◌∷◌, ◌==◌, eq_iff,
  if◌then◌else◌,
}
use native.Mathlib.Omega.{arith}
use mathlib.Core.List.{Perm}
use civic_connect.Prelude.Text.{In}
use civic_connect.Backend.Location.{H3, get_neighbors}
use civic_connect.Backend.Location.Neighbors.{IsH3, get_neighbors-perm}

abbrev show_cell : Bool → String
show_cell true = "872830828ffffff"
show_cell false = "872830829ffffff"

-- A grid of two cells.
abbrev two_cells : H3
two_cells = record {
  Cell = Bool;
  parse = λ s.
      if s == "872830828ffffff"
      then some true
      else if s == "872830829ffffff"
      then some false
      else none;
  show = show_cell;
  grid_disk = λ rings c. true ∷ false ∷ [];
}

parse-show_cell : (c : Bool) → two_cells.parse (show_cell c) ≡ some c
parse-show_cell true = refl
parse-show_cell false = refl

centre : (c : Bool) → In (show_cell c) (show_cell true ∷ show_cell false ∷ [])
centre true = inl refl
centre false = inr (inl refl)

cells_differ : show_cell false ≢ show_cell true
cells_differ e = let t = (eq_iff (show_cell false) (show_cell true)).1 e in cc t

two_cells-IsH3 : IsH3 two_cells
two_cells-IsH3 = record {
  parse-show = parse-show_cell;
  centre-grid_disk = λ rings c. centre c;
  grid_disk-Distinct =
      λ rings c. (λ i. elim i [ inl e ↦ cells_differ e | inr j ↦ j ], (λ j. j, tt));
}

get_neighbors-perm_example :
    (rest : List String) × (get_neighbors two_cells "872830829ffffff" 1 ≡ "872830829ffffff" ∷ rest)
    × Perm
        (get_neighbors two_cells "872830829ffffff" 1)
        ("872830828ffffff" ∷ "872830829ffffff" ∷ [])
get_neighbors-perm_example = get_neighbors-perm two_cells two_cells-IsH3 false 1 (omega arith)
