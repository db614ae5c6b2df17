-- ===== src/WatchdogConnection/Pings.antt =====
-- How a connected service and the watchdog go on: a wait ends, a ping is sent and answered, and the
-- timer is set again.
use process_manager_service.Prelude.{
  All, List, [], none, ap, ap₂, >>=-assoc, append-nil, false, length, map, refl, returned, some,
  sym, true, ℕ, ◌++◌, ◌<◌, ◌>>=◌, ◌∙◌, ◌∷◌, ◌≡◌,
}
use process_manager_service.Connection.{Message, header_chunk, body_chunk, header_read}
use process_manager_service.Connection.Write.{send_message, complete_write}
use process_manager_service.Connection.Read.{empty_message, start_reading_sequence}
use process_manager_service.Connection.Reading.{receive_lem}
use process_manager_service.Connection.Stream.{frames_all}
use process_manager_service.Connection.Drain.{writing_header, header_complete, frames_wire}
use process_manager_service.WatchdogResponseHandlers.{ErrorCode}
use process_manager_service.WatchdogResponseHandlers.Ping.{handle_ping_cases}
use process_manager_service.WatchdogConnection.{
  Operation, ping_response, Protocol, Watchdog, ping_message, handle_received_message,
  get_watchdog_response_handler, complete_wait,
}
use process_manager_service.WatchdogConnection.Runs.{
  Event, write_completes, message_arrives, wait_ends, run_event, run_events,
}

module _ (p : Protocol) (header_size : ℕ) (unset : Operation) where
  -- Between two pings: the connection is open, nothing is queued, a header is awaited, and a wait is
  -- outstanding.
  abbrev pub settled : Watchdog → ℕ → Watchdog
  settled c wait = record c {
    socket = some true;
    messages_queue = [];
    incoming_message = some (empty_message unset);
    sending_in_progress = false;
    writes = [];
    reads = header_read ∷ [];
    waits = wait ∷ [];
  }

  -- The answer to a ping.
  abbrev pub IsPong : ℕ → Message Operation → Type 0
  IsPong code m =
      (0 < m.header.size)
      × (m.header.operation_code ≡ ping_response)
      × (p.parse_ping_response m.body ≡ some code)

  -- The wait ends, the ping goes out, and its answer arrives.
  abbrev pub rounds : List (Message Operation) → List Event
  rounds [] = []
  rounds (m ∷ ms) = wait_ends ∷ write_completes ∷ write_completes ∷ message_arrives m ∷ rounds ms

  abbrev pub next_wait : ℕ → List (Message Operation) → ℕ
  next_wait wait [] = wait
  next_wait wait (m ∷ ms) = 3000

  next_wait_again : (ms : List (Message Operation)) → next_wait 3000 ms ≡ 3000
  next_wait_again [] = refl
  next_wait_again (m ∷ ms) = refl

  module _ (c : Watchdog) (wait : ℕ) (assigned : c.derived.is_code_assigned ≡ true)
      (some_body : 0 < length (ping_message p c.derived.sequence_code).body) where
    abbrev ping : Message Operation
    ping = ping_message p c.derived.sequence_code

    abbrev quiet : Watchdog
    quiet = record (settled c wait) { waits = [] }

    wait_ended :
        run_event p header_size unset wait_ends (settled c wait)
        ≡ returned (writing_header quiet true ping [])
    unfolding run_event complete_wait send_message
    wait_ended = rw assigned refl

    abbrev pinged : Watchdog
    pinged = record quiet {
      wire = (c.wire ++ header_chunk ping.header ∷ []) ++ body_chunk ping.body ∷ [];
    }

    ping_sent :
        (run_event p header_size unset write_completes (writing_header quiet true ping [])
          >>= run_event p header_size unset write_completes)
        ≡ returned pinged
    unfolding run_event complete_write
    ping_sent =
        ap (λ h. h >>= run_event p header_size unset write_completes)
          (header_complete (ErrorCode × Watchdog) header_size true quiet ping [] some_body)

    pong_handled :
        (m : Message Operation)
        → IsPong c.derived.sequence_code m
        → handle_received_message p
            (some m)
            (record pinged { socket = some true; incoming_message = none; reads = [] })
          ≡ returned (record pinged {
            socket = some true;
            incoming_message = none;
            reads = [];
            waits = 3000 ∷ [];
          })
    unfolding handle_received_message get_watchdog_response_handler
    pong_handled m (some_size, is_ping, parsed) = rw is_ping (
        rw assigned
          ((handle_ping_cases p.parse_ping_response _ c.derived.sequence_code m.body _).0 parsed))

    pong_received :
        (m : Message Operation)
        → IsPong c.derived.sequence_code m
        → run_event p header_size unset (message_arrives m) pinged ≡ returned (settled pinged 3000)
    unfolding run_event start_reading_sequence
    pong_received m (some_size, is_ping, parsed) =
        receive_lem header_size unset true (handle_received_message p) pinged (empty_message unset)
          true m some_size
        ∙ ap (λ h. h >>= start_reading_sequence unset true)
            (pong_handled m (some_size, is_ping, parsed))

    one_round :
        (m : Message Operation) (events : List Event)
        → IsPong c.derived.sequence_code m
        → run_events p header_size unset
            (wait_ends ∷ write_completes ∷ write_completes ∷ message_arrives m ∷ events)
            (settled c wait)
          ≡ run_events p header_size unset events (settled pinged 3000)
    unfolding run_events
    one_round m events pong =
        let run = run_events p header_size unset in
        ap (λ h. h >>= run (write_completes ∷ write_completes ∷ message_arrives m ∷ events))
          wait_ended
        ∙ sym (
            >>=-assoc
              (run_event p header_size unset write_completes (writing_header quiet true ping []))
              (run_event p header_size unset write_completes) (run (message_arrives m ∷ events)))
        ∙ ap (λ h. h >>= run (message_arrives m ∷ events)) ping_sent
        ∙ ap (λ h. h >>= run events) (pong_received m pong)

  -- A connected service between two pings, whose sequence code has been assigned. In every round its wait ends, it sends a ping with its
  -- sequence code, which has a body, and the watchdog answers with that code. After any number of
  -- rounds the service is as it was, with its data and its sequence code, and has set the timer again;
  -- what has gone out is one ping for each round.
  pub run_events-rounds :
      (ms : List (Message Operation)) (c : Watchdog) (wait : ℕ)
      → c.derived.is_code_assigned ≡ true
      → 0 < length (ping_message p c.derived.sequence_code).body
      → All (IsPong c.derived.sequence_code) ms
      → run_events p header_size unset (rounds ms) (settled c wait)
        ≡ returned (
            settled
              (record c {
                wire = c.wire ++ frames_all (map (λ m. ping_message p c.derived.sequence_code) ms);
              })
              (next_wait wait ms))
  unfolding run_events frames_all
  run_events-rounds [] c wait assigned some_body pongs = rw (append-nil c.wire) refl
  run_events-rounds (m ∷ ms) c wait assigned some_body (pong, pongs) =
      one_round c wait assigned some_body m (rounds ms) pong
      ∙ run_events-rounds ms (pinged c wait assigned some_body) 3000 assigned some_body pongs
      ∙ ap₂ (λ wire w. returned (settled (record c { wire = wire }) w))
          (frames_wire c.wire (ping c wait assigned some_body)
            (map (λ n. ping_message p c.derived.sequence_code) ms) some_body)
          (next_wait_again ms)
