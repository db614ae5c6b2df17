-- ===== src/Connection/Race/Late.antt =====
-- A thread in `sendMessage` that is overtaken by the handlers of the writes: between its push and
-- its test of `sendingInProgress`, its message goes out.
use process_manager_service.Prelude.{
  All, List, Outcome, [], length, refl, returned, true, undefined, ℕ, ◌++◌, ◌<◌, ◌>>=◌, ◌∷◌, ◌≡◌,
}
use process_manager_service.MessageQueue.{push}
use process_manager_service.Connection.{Message, Connection}
use process_manager_service.Connection.Write.{send_message, write_message_header}
use process_manager_service.Connection.Runs.{run}
use process_manager_service.Connection.Stream.{frames_all}
use process_manager_service.Connection.Drain.{completions, writing_header, idle, run_completions}
use process_manager_service.Connection.Race.{Position, at_push, thread_step}

module _ {D T X : Type 0} (header_size : ℕ) where
  -- The push, these completions, and the rest of `sendMessage`.
  abbrev pub overtaken :
      Message T → List (Message T) → Connection D T → Outcome X (Position × Connection D T)
  overtaken n overtaking c = thread_step n at_push c >>= λ (p, c1).
      run header_size (completions overtaking) c1 >>= λ c2.
      thread_step n p c2 >>= λ (p', c3). thread_step n p' c3

  -- The same completions after the whole of `sendMessage`.
  abbrev pub followed : Message T → List (Message T) → Connection D T → Outcome X (Connection D T)
  followed n overtaking c = send_message n c >>= λ c1. run header_size (completions overtaking) c1

module _ {D T : Type 0} (X : Type 0) (header_size : ℕ) where
  -- On an open connection a sending is under way, and one thread sends a message more; no body is
  -- empty. If the completions that send the whole queue come after `sendMessage`, everything goes
  -- out in order. If they come between its push and its test, then everything has gone out as well,
  -- but `sendMessage` starts a sending of the empty queue, which is undefined behaviour.
  pub overtaken-undefined :
      (m n : Message T) (rest : List (Message T)) (c : Connection D T)
      → All (λ x. 0 < length x.body) (m ∷ rest ++ n ∷ [])
      → (followed {X = X} header_size n (m ∷ rest ++ n ∷ []) (writing_header c true m rest)
          ≡ returned (idle c true (c.wire ++ frames_all (m ∷ rest ++ n ∷ []))))
        × (overtaken {X = X} header_size n (m ∷ rest ++ n ∷ []) (writing_header c true m rest)
            ≡ undefined)
  unfolding thread_step push send_message write_message_header
  overtaken-undefined m n rest c bodies = (
    run_completions X header_size true c m (rest ++ n ∷ []) bodies,
    rw (run_completions X header_size true c m (rest ++ n ∷ []) bodies) refl,
  )
