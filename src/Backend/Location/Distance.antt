-- ===== src/Backend/Location/Distance.antt =====
-- backend/rust-api/src/location/mod.rs: the distance of two cells, over the arithmetic of f64.
use civic_connect.Prelude.{ℕ, String, ◌≡◌, refl, ap, Option, none, some}
use std.Path.{ap₂}
use civic_connect.Backend.Location.{H3}

-- What is used of f64, with `literal` for a number that is written in the code and `powi_two` for
-- `powi(2)`, and the latitude and longitude of the centre of a cell, which h3o has.
pub record Floats (h : H3) : Type 1 where
  pub F : Type 0
  pub literal : ℕ → F
  pub add : F → F → F
  pub sub : F → F → F
  pub mul : F → F → F
  pub div : F → F → F
  pub to_radians : F → F
  pub sin : F → F
  pub cos : F → F
  pub sqrt : F → F
  pub asin : F → F
  pub powi_two : F → F
  pub lat : h.Cell → F
  pub lng : h.Cell → F

module _ (h : H3) (f : Floats h) where
  -- `(d / 2.0).sin().powi(2)` of a difference of angles in degrees
  abbrev pub squared_half_sine : f.F → f.F → f.F
  squared_half_sine x y = f.powi_two (f.sin (f.div (f.to_radians (f.sub y x)) (f.literal 2)))

  unfoldable pub haversine : h.Cell → h.Cell → f.F
  haversine c1 c2 =
      let r = f.literal 6371 in
      let lat1 = f.to_radians (f.lat c1) in
      let lat2 = f.to_radians (f.lat c2) in
      let a =
        f.add (squared_half_sine (f.lat c1) (f.lat c2))
          (f.mul (f.mul (f.cos lat1) (f.cos lat2)) (squared_half_sine (f.lng c1) (f.lng c2))) in
      let c = f.mul (f.literal 2) (f.asin (f.sqrt a)) in f.mul r c

  -- The distance of two cells that were read, each with `ok()?`.
  abbrev pub distance : Option h.Cell → Option h.Cell → Option f.F
  distance (some c1) (some c2) = some (haversine c1 c2)
  distance _ _ = none

  unfoldable pub approximate_distance_km : String → String → Option f.F
  approximate_distance_km cell1 cell2 = distance (h.parse cell1) (h.parse cell2)

-- The order of the factors of a product does not matter, nor that of a difference for its square.
pub record IsFloats (h : H3) (f : Floats h) : Type 0 where
  pub mul_comm : (x y : f.F) → f.mul x y ≡ f.mul y x
  pub square-sub : (x y : f.F) → squared_half_sine h f x y ≡ squared_half_sine h f y x

module _ (h : H3) (f : Floats h) (l : IsFloats h f) where
  haversine_comm : (c1 c2 : h.Cell) → haversine h f c1 c2 ≡ haversine h f c2 c1
  unfolding haversine
  haversine_comm c1 c2 = ap (f.mul (f.literal 6371)) (
      ap (λ a. f.mul (f.literal 2) (f.asin (f.sqrt a)))
        (ap₂ f.add (l.square-sub (f.lat c1) (f.lat c2)) (
          ap₂ f.mul (l.mul_comm (f.cos (f.to_radians (f.lat c1))) (f.cos (f.to_radians (f.lat c2))))
            (l.square-sub (f.lng c1) (f.lng c2)))))

  distance_comm : (m n : Option h.Cell) → distance h f m n ≡ distance h f n m
  distance_comm none none = refl
  distance_comm none (some c) = refl
  distance_comm (some c) none = refl
  distance_comm (some c1) (some c2) = ap some (haversine_comm c1 c2)

  -- The distance of two texts is that of the two in the other order.
  approximate_distance_km_comm :
      (s t : String) → approximate_distance_km h f s t ≡ approximate_distance_km h f t s
  unfolding approximate_distance_km
  approximate_distance_km_comm s t = distance_comm (h.parse s) (h.parse t)
