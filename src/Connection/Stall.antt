-- ===== src/Connection/Stall.antt =====
-- A message without a body leaves the connection stuck; a failed write does not.
use process_manager_service.Prelude.{
  ==_iff, Bool, List, [], append-nil, append_assoc, false, refl, returned, some, true, ℕ, ◌++◌,
  ◌==◌, ◌∙◌, ◌∷◌, ◌≡◌,
}
use process_manager_service.Connection.{Message, Chunk, header_chunk, Connection, accepted, connect}
use process_manager_service.Connection.Write.{
  send_message, complete_write, post_write_message_header, post_write_message_body,
}
use process_manager_service.Connection.Runs.{Event, sends, completes, sent, run}
use process_manager_service.Connection.Drain.{writing_header}

module _ {D T : Type 0} (X : Type 0) (header_size : ℕ) where
  -- A sending is in progress, with no write outstanding.
  abbrev stuck : Connection D T → List (Message T) → List (Chunk T) → Connection D T
  stuck c queue done = record c {
    socket = some true;
    sending_in_progress = true;
    messages_queue = queue;
    writes = [];
    wire = done;
  }

  run_stuck :
      (events : List (Event T)) (c : Connection D T) (queue : List (Message T))
      (done : List (Chunk T))
      → run {X = X} header_size events (stuck c queue done)
        ≡ returned (stuck c (queue ++ sent events) done)
  unfolding run sent send_message complete_write
  run_stuck [] c queue done = rw append-nil
  run_stuck (sends m ∷ events) c queue done =
      run_stuck events c (queue ++ m ∷ []) done ∙ rw append_assoc
  run_stuck (completes ∷ events) c queue done = run_stuck events c queue done

  -- When the last message of the queue has an empty body, its header goes out and the connection
  -- is stuck: `sendingInProgress` stays set with no write outstanding, so every message that is
  -- sent afterwards, in whatever history, is queued and never written.
  pub run_empty_body :
      (events : List (Event T)) (c : Connection D T) (m : Message T)
      → m.body ≡ []
      → run {X = X} header_size (completes ∷ events) (writing_header c true m [])
        ≡ returned (stuck c (sent events) (c.wire ++ header_chunk m.header ∷ []))
  unfolding run complete_write
  run_empty_body events c m empty =
      let whole : (header_size == header_size) ≡ true = (==_iff header_size header_size).1 refl in
      rw (whole, empty) (run_stuck events c [] (c.wire ++ header_chunk m.header ∷ []))

  -- A write that fails, of the header or of the body, closes the socket, ends the sending and keeps
  -- the queue; once the socket is connected again, the next `sendMessage` starts with the header of
  -- the message that was interrupted.
  pub send_message-failed_write :
      (bytes_transferred : ℕ) (open_now : Bool) (c : Connection D T) (m n : Message T)
      (rest : List (Message T))
      → let interrupted = record (writing_header c open_now m rest) { writes = [] } in
        let closed = record interrupted { socket = some false; sending_in_progress = false } in
        (post_write_message_header {X = X} header_size true bytes_transferred interrupted
          ≡ returned closed)
        × (post_write_message_body {X = X} true interrupted ≡ returned closed)
        × (send_message {X = X} n (connect accepted closed).1
            ≡ returned (writing_header c true m (rest ++ n ∷ [])))
  unfolding post_write_message_header post_write_message_body send_message connect
  send_message-failed_write bytes_transferred true c m n rest = (refl, refl, refl)
  send_message-failed_write bytes_transferred false c m n rest = (refl, refl, refl)
