-- ===== src/Connection/Race/Stranded.antt =====
-- `sendMessage` of one thread between two statements of `postWriteMessageBody` on another, its test
-- of the queue and its reset of `sendingInProgress`.
use process_manager_service.Prelude.{
  Bool, List, Outcome, [], false, if◌then◌else◌, not, refl, returned, some, suc, true, zero, ℕ,
  ◌>>=◌, ◌∷◌, ◌≡◌,
}
use process_manager_service.MessageQueue.{pop, push, front, is_empty}
use process_manager_service.Connection.{Message, Connection}
use process_manager_service.Connection.Write.{
  write_message_header, post_write_message_body, send_message, complete_write,
}
use process_manager_service.Connection.Runs.{Event, completes, run}
use process_manager_service.Connection.Drain.{writing_header, idle}

module _ {D T X : Type 0} where
  unfoldable pub pop_sent : Connection D T → Outcome X (Connection D T)
  unfolding pop
  pop_sent c = pop c.messages_queue >>= λ rest. returned (record c { messages_queue = rest })

  -- What follows the test, given what it has found.
  unfoldable pub after_test : Bool → Connection D T → Outcome X (Connection D T)
  unfolding write_message_header
  after_test empty c =
      if not empty
      then write_message_header c
      else returned (record c { sending_in_progress = false })

  -- The handler of a written body, with `sendMessage` between its test and what follows it.
  abbrev pub interrupted : Message T → Connection D T → Outcome X (Connection D T)
  interrupted n c =
      pop_sent c >>= λ c1. send_message n c1 >>= λ c2. after_test (is_empty c1.messages_queue) c2

  pub pop_sent-after_test :
      (c : Connection D T)
      → (pop_sent c >>= λ c1. after_test (is_empty c1.messages_queue) c1)
        ≡ post_write_message_body {X = X} false c
  unfolding pop_sent after_test post_write_message_body
  pop_sent-after_test c = go c.messages_queue
    where
      go :
          (queue : List (Message T))
          → (pop_sent (record c { messages_queue = queue }) >>= λ c1.
              after_test (is_empty c1.messages_queue) c1)
            ≡ post_write_message_body {X = X} false (record c { messages_queue = queue })
      go [] = refl
      go (m ∷ rest) = refl

abbrev pub many_completions : {T : Type 0} → ℕ → List (Event T)
many_completions zero = []
many_completions (suc k) = completes ∷ many_completions k

module _ {D T : Type 0} (X : Type 0) (header_size : ℕ) where
  nothing_completes :
      (k : ℕ) (c : Connection D T)
      → let without = record c { writes = [] } in
        run {X = X} header_size (many_completions k) without ≡ returned without
  unfolding run complete_write
  nothing_completes zero c = refl
  nothing_completes (suc k) c = nothing_completes k c

  -- The body of the only queued message has been written, on an open connection, and one thread
  -- sends a message more. If `sendMessage` runs after the handler, the header of its message is
  -- being written. If it runs when the handler has found the queue empty, and has yet to reset
  -- `sendingInProgress`, then its message stays in the queue: no sending is in progress, no write is
  -- outstanding, and no number of completions changes that. Only the next `sendMessage` sends it,
  -- before its own message.
  pub interrupted-stranded :
      (m n o : Message T) (k : ℕ) (c : Connection D T)
      → let written = record c {
        socket = some true;
        sending_in_progress = true;
        messages_queue = m ∷ [];
        writes = [];
      } in
        let stranded = record (idle c true c.wire) { messages_queue = n ∷ [] } in
        ((post_write_message_body {X = X} false written >>= λ c1. send_message n c1)
          ≡ returned (writing_header c true n []))
        × (interrupted {X = X} n written ≡ returned stranded)
        × (run {X = X} header_size (many_completions k) stranded ≡ returned stranded)
        × (send_message {X = X} o stranded ≡ returned (writing_header c true n (o ∷ [])))
  unfolding pop_sent after_test post_write_message_body send_message push front write_message_header
  interrupted-stranded m n o k c = (
    refl,
    refl,
    nothing_completes k (record (idle c true c.wire) { messages_queue = n ∷ [] }),
    refl,
  )
