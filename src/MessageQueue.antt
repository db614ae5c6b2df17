-- ===== src/MessageQueue.antt =====
-- Source/include/MessageQueue.hpp: a std::queue under a lock. Each method holds the lock from its
-- first statement to its end, so a method is one step. `front` and `pop` of an empty std::queue
-- are undefined. The two overloads of `push` differ in whether they copy, and are one here.
use process_manager_service.Prelude.{
  Bool, List, Outcome, [], false, length, returned, true, undefined, ℕ, ◌++◌, ◌∷◌,
}

module _ {T X : Type 0} where
  unfoldable pub front : List T → Outcome X T
  front [] = undefined
  front (message ∷ messages) = returned message

  unfoldable pub pop : List T → Outcome X (List T)
  pop [] = undefined
  pop (message ∷ messages) = returned messages

module _ {T : Type 0} where
  -- The queue, and the size that `push` returns.
  unfoldable pub push : T → List T → ℕ × List T
  push message messages = let q = messages ++ message ∷ [] in (length q, q)

  unfoldable pub size : List T → ℕ
  size messages = length messages

  unfoldable pub is_empty : List T → Bool
  is_empty [] = true
  is_empty (message ∷ messages) = false
