-- ===== src/ExampleService/Coordinates.antt =====
-- The map of coordinates.
use process_manager_service.Prelude.{
  Option, [], arith, if◌then◌else◌, none, some, ℕ, ◌==◌, ◌∷◌, ◌≡◌,
}
use process_manager_service.ExampleService.{Pair, GpsCoordinates, set_coordinates}

abbrev pub find : ℕ → GpsCoordinates → Option Pair
find identifier [] = none
find identifier ((key, coordinates) ∷ rest) =
    let later = find identifier rest in if key == identifier then some coordinates else later

-- Setting the coordinates of a module gives it these coordinates, whether or not it had any, and
-- leaves those of every other module as they were.
pub find-set_coordinates :
    (other identifier : ℕ) (coordinates : Pair) (w : GpsCoordinates)
    → find other (set_coordinates identifier coordinates w)
      ≡ (if identifier == other then some coordinates else find other w)
unfolding set_coordinates
find-set_coordinates other identifier coordinates [] = ground arith
find-set_coordinates other identifier coordinates ((key, old) ∷ rest) =
    ground (arith, find-set_coordinates other identifier coordinates rest)
