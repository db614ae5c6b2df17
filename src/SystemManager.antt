-- ===== src/SystemManager.antt =====
-- Source/src/SystemManager.cpp and Source/src/SystemManagerMain.cpp, over the static instance of the
-- database. `make` is the construction of the driver's pool at an address, `acquire` the pool's, `ping`
-- the driver's command. The collection of the users is declared in a header that the repository does
-- not have: `collect` is its constructor.
pub mod Main
use process_manager_service.Prelude.{
  Bytes, Option, Outcome, [], if◌then◌else◌, not, returned, ◌>>=◌, ◌∷◌,
}
use process_manager_service.DbEnvironment.{Reply, get_client, is_connected}
use process_manager_service.DbEnvironment

-- "127.0.0.1"
abbrev pub address : Bytes
address = 49 ∷ 50 ∷ 55 ∷ 46 ∷ 48 ∷ 46 ∷ 48 ∷ 46 ∷ 49 ∷ []

-- How `main` ends: without a database, or after the manager has run.
pub data End : Type 0 where
  not_connected ran : End

module _ {P C U X : Type 0} (make : Bytes → Option P) (acquire : P → Outcome X C) (ping : C → Reply)
    (collect : C → Outcome X U) where
  -- The constructor of the manager, which keeps the collection of the users.
  unfoldable new_manager : Option P → Outcome X U
  unfolding get_client
  new_manager instance = get_client acquire instance >>= collect

  -- The body of `run` is empty.
  unfoldable run : U → Outcome X End
  run users = returned End.ran

  -- `main`; what `initialize` returns is not looked at.
  unfoldable pub main : Option P → Outcome X End
  unfolding new_manager run DbEnvironment.initialize is_connected
  main instance =
      let instance' = (DbEnvironment.initialize (make address) instance).1 in
      is_connected acquire ping instance' >>= λ connected.
      if not connected then returned End.not_connected else new_manager instance' >>= run
