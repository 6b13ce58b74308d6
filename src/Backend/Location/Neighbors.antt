-- ===== src/Backend/Location/Neighbors.antt =====
-- backend/rust-api/src/location/mod.rs: the neighbours of a cell.
use civic_connect.Prelude.{
  ℕ, ◌<◌, String, ◌≡◌, refl, sym, ap, subst, inl, inr, true, some, List, [], ◌∷◌, map, ◌==◌, eq_iff,
  ltb, Bool-cases,
}
use native.Mathlib.Omega.{arith}
use mathlib.Core.List.{Perm}
use mathlib.Core.List.Perm
use civic_connect.Prelude.Text.{In, Distinct}
use civic_connect.Backend.Location.{H3, others, get_neighbors}

-- What h3o documents: the text of a cell is read back, and a disk has its centre and no cell twice.
pub record IsH3 (h : H3) : Type 0 where
  pub parse-show : (c : h.Cell) → h.parse (h.show c) ≡ some c
  pub centre-grid_disk : (rings : ℕ) (c : h.Cell) → In (h.show c) (map h.show (h.grid_disk rings c))
  pub grid_disk-Distinct : (rings : ℕ) (c : h.Cell) → Distinct (map h.show (h.grid_disk rings c))

module _ (h : H3) where
  others_absent :
      (s : String) (cs : List h.Cell) → ¬ In s (map h.show cs) → others h s cs ≡ map h.show cs
  others_absent s [] k = refl
  others_absent s (c ∷ cs) k = elim (Bool-cases (h.show c == s)) [
    | inl e ↦ absurd (k (inl ((eq_iff (h.show c) s).0 e)))
    | inr e ↦ rw e (ap (◌∷◌ (h.show c)) (others_absent s cs (λ i. k (inr i))))
  ]

  others-perm :
      (s : String) (cs : List h.Cell)
      → Distinct (map h.show cs)
      → In s (map h.show cs)
      → Perm (s ∷ others h s cs) (map h.show cs)
  others-perm s [] d i = absurd i
  others-perm s (c ∷ cs) d i = elim (Bool-cases (h.show c == s)) [
    | inl e ↦
        (let same : h.show c ≡ s = (eq_iff (h.show c) s).0 e in
          let gone : ¬ In s (map h.show cs) = subst (λ t. ¬ In t (map h.show cs)) same d.0 in
          rw (e, others_absent s cs gone) (Perm.cons' (sym same) Perm.rfl))
    | inr e ↦ elim i [
      | inl same ↦ absurd (ground (arith, e, (eq_iff (h.show c) s).1 same))
      | inr later ↦ rw e (
          Perm.trans (Perm.swap (h.show c) s (others h s cs))
            (Perm.cons (h.show c) (others-perm s cs d.1 later)))
    ]
  ]

  -- The neighbours of the text of a cell, within one ring or more, begin with the cell itself, and are
  -- the texts of the cells of its disk, each as often, in some order.
  pub get_neighbors-perm :
      (l : IsH3 h) (c : h.Cell) (rings : ℕ)
      → 0 < rings
      → (rest : List String) × (get_neighbors h (h.show c) rings ≡ h.show c ∷ rest)
        × Perm (get_neighbors h (h.show c) rings) (map h.show (h.grid_disk rings c))
  unfolding get_neighbors
  get_neighbors-perm l c rings k =
      let some_ring : ltb 0 rings ≡ true = ground (arith, k) in
      (
        others h (h.show c) (h.grid_disk rings c),
        rw (get_neighbors, l.parse-show c, some_ring) refl,
        rw (get_neighbors, l.parse-show c, some_ring)
            (others-perm (h.show c) (h.grid_disk rings c) (l.grid_disk-Distinct rings c)
              (l.centre-grid_disk rings c)),
      )
