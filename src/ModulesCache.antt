-- ===== src/ModulesCache.antt =====
-- Source/src/ServiceModulesCache.cpp: where modules can be reached. `E` is the type of boost's UDP
-- endpoints, and `unset` the endpoint that its default constructor makes. The std::map is an
-- association list; its `emplace` changes nothing at a key that is there.
pub mod Laws
use process_manager_service.Prelude.{List, Option, [], if◌then◌else◌, none, some, ℕ, ◌==◌, ◌∷◌}

pub record ModulesCache (E : Type 0) : Type 0 where
  pub modules : List (ℕ × E)

module _ {E : Type 0} where
  -- `std::find_if` by the key.
  unfoldable pub find_module : ℕ → List (ℕ × E) → Option E
  find_module key [] = none
  find_module key ((k, address) ∷ modules) =
      if k == key then some address else find_module key modules

  unfoldable pub emplace : ℕ → E → List (ℕ × E) → List (ℕ × E)
  unfolding find_module
  emplace key address modules = elim (find_module key modules) [
    | none ↦ (key, address) ∷ modules
    | some old ↦ modules
  ]

  -- The source adds the module under `iter != std::end(modulesCache)`, that is, if it was found.
  unfoldable pub add_module : ℕ → E → ModulesCache E → ModulesCache E
  add_module key address c = elim (find_module key c.modules) [
    | none ↦ c
    | some old ↦ record { modules = emplace key address c.modules }
  ]

  unfoldable pub get_modules_destinations : E → ℕ → ModulesCache E → E
  get_modules_destinations unset key c = elim (find_module key c.modules) [
    | none ↦ unset
    | some address ↦ address
  ]
