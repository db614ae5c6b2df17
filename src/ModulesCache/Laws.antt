-- ===== src/ModulesCache/Laws.antt =====
-- ModulesCache::addModule never adds a module.
use process_manager_service.Prelude.{List, [], arith, refl, ℕ, ◌∷◌, ◌≡◌}
use process_manager_service.ModulesCache.{
  ModulesCache, find_module, emplace, add_module, get_modules_destinations,
}

module _ {E : Type 0} where
  -- Adding a module leaves every cache as it was, whether or not it holds the module.
  add_module_unchanged : (key : ℕ) (address : E) (c : ModulesCache E) → add_module key address c ≡ c
  unfolding add_module emplace
  add_module_unchanged key address c = ground arith

  unfoldable pub add_modules : List (ℕ × E) → ModulesCache E → ModulesCache E
  add_modules [] c = c
  add_modules ((key, address) ∷ modules) c = add_modules modules (add_module key address c)

  add_modules_unchanged : (modules : List (ℕ × E)) (c : ModulesCache E) → add_modules modules c ≡ c
  unfolding add_modules
  add_modules_unchanged [] c = refl
  add_modules_unchanged ((key, address) ∷ modules) c =
      rw (add_module_unchanged key address c) (add_modules_unchanged modules c)

  -- From the empty cache, whatever modules are added, every module is looked up as the endpoint of
  -- the default constructor.
  pub get_modules_destinations-add_modules :
      (unset : E) (key : ℕ) (modules : List (ℕ × E))
      → get_modules_destinations unset key (add_modules modules (record { modules = [] })) ≡ unset
  unfolding get_modules_destinations find_module
  get_modules_destinations-add_modules unset key modules =
      rw (add_modules_unchanged modules (record { modules = [] }))
