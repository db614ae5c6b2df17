-- ===== src/Connection/Tests.antt =====
-- Runs of a connection, and its theorems at a concrete one.
pub mod Races
use process_manager_service.Prelude.{
  Bytes, List, Option, Outcome, Returns, [], arith, false, none, refl, returned, some, true, ℕ,
  ◌++◌, ◌+◌, ◌∷◌, ◌≡◌,
}
use process_manager_service.Connection.{Message, header_chunk, body_chunk, Connection}
use process_manager_service.Connection.Write.{send_message, complete_write}
use process_manager_service.Connection.Read.{empty_message}
use process_manager_service.Connection.Delivered.{on_derived, deliver, deliver-run}
use process_manager_service.Connection.Stream.{frames, frames_all, pending}
use process_manager_service.Connection.Runs.{Event, sends, completes, sent, run, run_lem}
use process_manager_service.Connection.Drain.{writing_header, idle}
use process_manager_service.Connection.Stall.{run_empty_body}
use process_manager_service.Connection.Reading.{waiting}

-- Operation codes stand as numbers, and there is one exception.
pub data Failure : Type 0 where
  failure : Failure

abbrev pub hello : Message ℕ
hello = record { header = record { operation_code = 1; size = 2 }; body = 104 ∷ 105 ∷ [] }

abbrev pub bye : Message ℕ
bye = record { header = record { operation_code = 2; size = 1 }; body = 98 ∷ [] }

abbrev no_body : Message ℕ
no_body = record { header = record { operation_code = 3; size = 0 }; body = [] }

abbrev pub open_connection : Connection ℕ ℕ
open_connection = record {
  socket = some true;
  messages_queue = [];
  incoming_message = none;
  sending_in_progress = false;
  writes = [];
  reads = [];
  waits = [];
  wire = [];
  derived = 0;
}

abbrev history : List (Event ℕ)
history = sends hello ∷ completes ∷ sends bye ∷ completes ∷ []

after_history :
    run {X = Failure} 8 history open_connection
    ≡ returned (record (writing_header open_connection true bye []) {
      wire = header_chunk hello.header ∷ body_chunk hello.body ∷ [];
    })
unfolding run send_message complete_write
after_history = refl

run_example :
    Returns
      (run {X = Failure} 8 history open_connection)
      (λ c'. c'.wire ++ pending c'.writes c'.messages_queue ≡ frames_all (hello ∷ bye ∷ []))
unfolding sent
run_example = run_lem Failure 8 history open_connection refl refl refl

run_empty_body_example :
    run {X = Failure} 8
      (completes ∷ sends bye ∷ completes ∷ [])
      (writing_header open_connection true no_body [])
    ≡ returned (record open_connection {
      sending_in_progress = true;
      messages_queue = bye ∷ [];
      wire = header_chunk no_body.header ∷ [];
    })
unfolding sent
run_empty_body_example =
    run_empty_body Failure 8 (sends bye ∷ completes ∷ []) open_connection no_body refl

-- A handler that counts the messages that it is handed.
abbrev counting : Option (Message ℕ) → Connection ℕ ℕ → Outcome Failure (Connection ℕ ℕ)
counting m c = returned (record c { derived = c.derived + 1 })

-- A history after which everything has gone out, and a reader that keeps the bodies' bytes.
abbrev whole_history : List (Event ℕ)
whole_history = history ++ completes ∷ completes ∷ []

abbrev keep : Message ℕ → Bytes → Bytes
keep m bytes = bytes ++ m.body

abbrev reading_connection : Connection Bytes ℕ
reading_connection = record {
  socket = some true;
  messages_queue = [];
  incoming_message = none;
  sending_in_progress = false;
  writes = [];
  reads = [];
  waits = [];
  wire = [];
  derived = [];
}

after_whole_history :
    run {X = Failure} 8 whole_history open_connection
    ≡ returned (idle open_connection true (frames_all (hello ∷ bye ∷ [])))
unfolding run send_message complete_write frames_all frames
after_whole_history = refl

deliver-run_example :
    deliver {X = Failure} 8 0
      (on_derived keep)
      (idle open_connection true (frames_all (hello ∷ bye ∷ []))).wire
      (waiting reading_connection (empty_message 0) true)
    ≡ returned (
        waiting
          (record reading_connection { derived = 104 ∷ 105 ∷ 98 ∷ [] })
          (empty_message 0)
          true)
unfolding sent
deliver-run_example =
    deliver-run 8 0 keep true whole_history open_connection
      (idle open_connection true (frames_all (hello ∷ bye ∷ []))) reading_connection refl refl refl
      after_whole_history refl refl ((omega arith, refl), ((omega arith, refl), tt))
