-- ===== src/Connection/Race.antt =====
-- Two threads in `TcpConnection::sendMessage` (Source/include/Connection.hpp). The push holds the
-- queue's lock; the test of `sendingInProgress` and the write of it are two accesses of an atomic,
-- with nothing that holds between them. Each is one step here, and a schedule says who moves.
pub mod Late
pub mod Stranded
use process_manager_service.Prelude.{
  ==_iff, >>=-assoc, Bool, List, Option, Outcome, [], arith, false, if◌then◌else◌, length, ltb,
  none, not, refl, returned, some, true, undefined, ℕ, ◌&&◌, ◌++◌, ◌<◌, ◌==◌, ◌>>=◌, ◌∷◌, ◌≡◌,
}
use process_manager_service.MessageQueue.{push}
use process_manager_service.Connection.{Message, header_chunk, Connection}
use process_manager_service.Connection.Write.{write_message_header, send_message, complete_write}
use process_manager_service.Connection.Runs.{completes, run}

-- Where a thread stands in `sendMessage`.
pub data Position : Type 0 where
  at_push at_test at_start at_end : Position

pub data Thread : Type 0 where
  one two : Thread

-- Whether the tests of the socket and of `sendingInProgress` let the thread start a sending.
may_start : Option Bool → Bool → Bool
may_start none sending = false
may_start (some open_now) sending = open_now && not sending

module _ {D T X : Type 0} where
  unfoldable thread_step :
      Message T → Position → Connection D T → Outcome X (Position × Connection D T)
  unfolding push may_start
  thread_step m at_push c =
      returned (at_test, record c { messages_queue = (push m c.messages_queue).1 })
  thread_step m at_test c =
      returned (if may_start c.socket c.sending_in_progress then at_start else at_end, c)
  thread_step m at_start c =
      write_message_header (record c { sending_in_progress = true }) >>= λ c'. returned (at_end, c')
  thread_step m at_end c = returned (at_end, c)

  -- The two threads send one message each, from the positions `p` and `q`.
  unfoldable pub interleave :
      Message T
      → Message T
      → List Thread
      → Position
      → Position
      → Connection D T
      → Outcome X (Position × Position × Connection D T)
  unfolding thread_step
  interleave m n [] p q c = returned (p, q, c)
  interleave m n (one ∷ schedule) p q c =
      thread_step m p c >>= λ (p', c'). interleave m n schedule p' q c'
  interleave m n (two ∷ schedule) p q c =
      thread_step n q c >>= λ (q', c'). interleave m n schedule p q' c'

-- The steps of one thread, with the other one waiting, are `sendMessage`.
abbrev one_alone : List Thread
one_alone = one ∷ one ∷ one ∷ []

-- Both threads test before either writes.
abbrev pub both_test : List Thread
both_test = one ∷ two ∷ one ∷ two ∷ one ∷ two ∷ []

module _ {D T : Type 0} (X : Type 0) where
  alone_at :
      (m n : Message T) (c : Connection D T) (socket : Option Bool) (sending : Bool)
      → let start = record c { socket = socket; sending_in_progress = sending } in
        interleave {X = X} m n one_alone at_push at_push start
        ≡ (send_message m start >>= λ c'. returned (at_end, at_push, c'))
  unfolding interleave send_message
  alone_at m n c none sending = refl
  alone_at m n c (some false) sending = refl
  alone_at m n c (some true) true = refl
  alone_at m n c (some true) false =
      >>=-assoc
        (write_message_header {X = X} (record c {
          socket = some true;
          sending_in_progress = true;
          messages_queue = c.messages_queue ++ m ∷ [];
        }))
        (λ c'. returned (at_end, c')) (λ (p, c'). returned (p, at_push, c'))

  -- Three steps of a thread that nobody interrupts do what `sendMessage` does.
  interleave_alone :
      (m n : Message T) (c : Connection D T)
      → interleave {X = X} m n one_alone at_push at_push c
        ≡ (send_message m c >>= λ c'. returned (at_end, at_push, c'))
  unfolding interleave send_message
  interleave_alone m n c = alone_at m n c c.socket c.sending_in_progress

  -- On an open connection with nothing queued, if both threads test before either writes, then the
  -- header of one message is written twice, and after five completions, if that message has a body,
  -- a handler takes the front of the empty queue, which is undefined.
  pub interleave-both_test :
      (m n : Message T) (header_size : ℕ) (c : Connection D T)
      → 0 < length m.body
      → let quiet = record c {
        socket = some true;
        sending_in_progress = false;
        messages_queue = [];
        writes = [];
      } in
        let raced = record c {
          socket = some true;
          sending_in_progress = true;
          messages_queue = m ∷ n ∷ [];
          writes = header_chunk m.header ∷ header_chunk m.header ∷ [];
        } in
        (interleave {X = X} m n both_test at_push at_push quiet ≡ returned (at_end, at_end, raced))
        × (run {X = X} header_size
              (completes ∷ completes ∷ completes ∷ completes ∷ completes ∷ [])
              raced
            ≡ undefined)
  unfolding interleave write_message_header run complete_write
  interleave-both_test m n header_size c hm =
      let whole : (header_size == header_size) ≡ true = (==_iff header_size header_size).1 refl in
      let some_body : ltb 0 (length m.body) ≡ true = ground arith in
      (refl, rw (whole, some_body) (rw (whole, some_body) (rw whole)))
