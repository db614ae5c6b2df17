-- ===== src/SystemManager/Main.antt =====
-- When the system manager comes to run.
use process_manager_service.Prelude.{
  if◌then◌else◌, ◌&&◌, ◌==◌, [], ◌∷◌, Bool, Bytes, Option, Outcome, arith, false, none, refl,
  returned, some, true, undefined, ◌≡◌,
}
use process_manager_service.DbEnvironment.{Reply, is_success, get_client, is_connected}
use process_manager_service.DbEnvironment
use process_manager_service.SystemManager.{address, End, main}

-- "mongodb"; an address of the driver begins with it.
abbrev pub scheme : Bytes
scheme = 109 ∷ 111 ∷ 110 ∷ 103 ∷ 111 ∷ 100 ∷ 98 ∷ []

abbrev pub starts_with : Bytes → Bytes → Bool
starts_with bytes [] = true
starts_with [] (p ∷ prefix) = false
starts_with (b ∷ bytes) (p ∷ prefix) = b == p && starts_with bytes prefix

-- The driver refuses, with an exception, an address that does not begin with the scheme.
abbrev pub NeedsScheme : {P : Type 0} → (Bytes → Option P) → Type 0
NeedsScheme make = (bytes : Bytes) → starts_with bytes scheme ≡ false → make bytes ≡ none

module _ {P C U X : Type 0} (make : Bytes → Option P) (acquire : P → Outcome X C) (ping : C → Reply)
    (collect : C → Outcome X U) where
  -- If the driver refuses an address without its scheme, then `main` of the system manager, with no
  -- instance before, asks a null pointer for a client, which is undefined behaviour, whatever the
  -- database would answer.
  pub main-NeedsScheme : NeedsScheme make → main make acquire ping collect none ≡ undefined
  unfolding main DbEnvironment.initialize is_connected get_client
  main-NeedsScheme refuses = rw (refuses address refl) refl

  -- With an instance that gives a client, the manager runs where the database answers the ping with
  -- success and the collection of the users can be had; where it does not answer so, `main` ends.
  main_lem :
      (pool : P) (client : C) (users : U)
      → acquire pool ≡ returned client
      → collect client ≡ returned users
      → main make acquire ping collect (some pool)
        ≡ returned (if is_success (ping client) then End.ran else End.not_connected)
  unfolding main DbEnvironment.initialize is_connected get_client
  main_lem pool client users acquired collected = ground arith
