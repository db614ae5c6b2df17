-- ===== src/DbEnvironment.antt =====
-- Source/include/MongoDbEnvironment.hpp and Source/src/MongoDbEnvironment.cpp: the static pool of clients of
-- the database. `P` is the driver's pool, `C` its client. `made` is what the construction of the
-- pool gives: nothing where it throws.
pub mod Instance
use process_manager_service.Prelude.{
  Bool, Option, Outcome, false, none, returned, some, true, undefined, ◌>>=◌,
}

-- What the driver's command `ping` ends with: an exception, also where `get_double` refuses the field
-- "ok", or whether that field is the double 1.
pub data Reply : Type 0 where
  failed : Reply
  ok : Bool → Reply

abbrev pub is_success : Reply → Bool
is_success failed = false
is_success (ok is_one) = is_one

module _ {P : Type 0} where
  unfoldable pub initialize : Option P → Option P → Bool × Option P
  initialize made (some pool) = (true, some pool)
  initialize (some pool) none = (true, some pool)
  initialize none none = (false, none)

  -- The call through the pointer that `getInstance` returns; `acquire` is the pool's.
  unfoldable pub get_client : {X C : Type 0} → (P → Outcome X C) → Option P → Outcome X C
  get_client acquire none = undefined
  get_client acquire (some pool) = acquire pool

  -- The client is acquired before the `try` block.
  unfoldable pub is_connected :
      {X C : Type 0} → (P → Outcome X C) → (C → Reply) → Option P → Outcome X Bool
  unfolding get_client
  is_connected acquire ping instance =
      get_client acquire instance >>= λ client. returned (is_success (ping client))
