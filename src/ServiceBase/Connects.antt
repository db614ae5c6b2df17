-- ===== src/ServiceBase/Connects.antt =====
-- The way from `main` to a service that serves, with a watchdog that answers.
use process_manager_service.Prelude.{
  ==_iff, false, List, Returns, [], ap, arith, if◌then◌else◌, length, ltb, refl, length-map,
  length-append, map, returned, some, true, ℕ, ◌++◌, ◌<◌, ◌==◌, ◌>>=◌, ◌∙◌, ◌∷◌, ◌≡◌, ◌+◌, ◌*◌,
  ◌&&◌,
}
use process_manager_service.EventManager.{EventManager}
use process_manager_service.EventManager
use process_manager_service.Connection.{Message, header_chunk, body_chunk, accepted}
use process_manager_service.Connection.Write.{complete_write}
use process_manager_service.Connection.Read.{empty_message}
use process_manager_service.WatchdogConnectionState.{ConnectionState}
use process_manager_service.WatchdogResponseHandlers.{ErrorCode, Handled, ConnectResponseData}
use process_manager_service.WatchdogResponseHandlers.Connect.{accepts}
use process_manager_service.WatchdogConnection.{
  Operation, Watchdog, connect_response, connect_message,
}
use process_manager_service.WatchdogConnection.Runs.{
  Event, write_completes, message_arrives, run_event, run_events,
}
use process_manager_service.WatchdogConnection.Responses.{received_connects}
use process_manager_service.Configuration.{ServerConfiguration, read_configuration}
use process_manager_service.ContextWorker.{Setup, ContextWorker, new_worker, start_read}
use process_manager_service.ServiceBase.{
  Base, Settings, sockets_made, StartException, End, exits, serves, new_watchdog,
  connect_to_watchdog, wait_for_connect_response, attempt, initialize, run_service_task,
  start_service, main, share, add_worker, share_worker, initialize_sockets, read_all, join_all,
  run_forever,
}
use process_manager_service.ServiceBase.Startup.{
  started, prepared, attempt_accepted, connect_to_watchdog_lem,
}

threads_some :
    {A B : Type 0} (n : ℕ) (f : A → B) (xs : List A) (x : A)
    → 0 < n + 5 * length (map f (xs ++ x ∷ []))
threads_some n f xs x =
    let mapped : length (map f (xs ++ x ∷ [])) ≡ length (xs ++ x ∷ []) =
      length-map (xs ++ x ∷ []) f in
    omega (arith, mapped, length-append xs (x ∷ []))

run_forever_and :
    (code : ℕ)
    → (if code == run_forever && true then serves else exits code)
      ≡ (if code == run_forever then serves else exits code)
run_forever_and code = ground arith

share_worker-twice :
    {W E : Type 0} (manager before : EventManager W E) (workers : List (ContextWorker W E))
    → map (share_worker manager) (map (share_worker before) workers)
      ≡ map (share_worker manager) workers
share_worker-twice manager before [] = refl
share_worker-twice manager before (worker ∷ workers) =
    ap (◌∷◌ (share_worker manager worker)) (share_worker-twice manager before workers)

module _ {W E : Type 0} (settings : Settings W E) where
  -- The request has gone out, and nothing is queued.
  abbrev requested : Watchdog
  requested = record (started settings) {
    messages_queue = [];
    sending_in_progress = false;
    writes = [];
    wire =
        header_chunk (connect_message settings.protocol).header
        ∷ body_chunk (connect_message settings.protocol).body
        ∷ [];
  }

  -- The connection that has the sequence code, and that will send a ping after a second.
  abbrev pub connected_watchdog : ℕ → Watchdog
  connected_watchdog code = record requested {
    waits = 1000 ∷ [];
    derived = record {
      is_code_assigned = true;
      sequence_code = code;
      connection_state = ConnectionState.connected;
    };
  }

  module _ (m : Message Operation) (d : ConnectResponseData)
      (has_request : 0 < length (connect_message settings.protocol).body)
      (has_body : 0 < m.header.size) (is_connect : m.header.operation_code ≡ connect_response)
      (parsed : settings.protocol.parse_connect_response m.body ≡ some d)
      (success : accepts d (new_watchdog settings.uninitialized).derived ≡ true) where
    -- Between the writes of the request's header and of its body.
    abbrev half_sent : Watchdog
    half_sent = record (started settings) {
      writes = body_chunk (connect_message settings.protocol).body ∷ [];
      wire = header_chunk (connect_message settings.protocol).header ∷ [];
    }

    header_sent :
        complete_write {X = ErrorCode × Watchdog} settings.header_size (started settings)
        ≡ returned half_sent
    unfolding complete_write new_watchdog
    header_sent =
        let full : (settings.header_size == settings.header_size) ≡ true =
          (==_iff settings.header_size settings.header_size).1 refl in
        let some_body : ltb 0 (length (connect_message settings.protocol).body) ≡ true =
          ground arith in
        rw full (rw some_body refl)

    body_sent :
        complete_write {X = ErrorCode × Watchdog} settings.header_size half_sent
        ≡ returned requested
    unfolding complete_write new_watchdog
    body_sent = refl

    request_sent :
        (events : List Event)
        → run_events settings.protocol settings.header_size settings.unset
            (write_completes ∷ write_completes ∷ events)
            (started settings)
          ≡ run_events settings.protocol settings.header_size settings.unset events requested
    unfolding run_events run_event
    request_sent events =
        let run : List Event → Watchdog → Handled Watchdog =
          run_events settings.protocol settings.header_size settings.unset in
        ap (λ h. h >>= run (write_completes ∷ events)) header_sent
        ∙ ap (λ h. h >>= run events) body_sent

    -- What the connection is when the response has come.
    abbrev answered : Watchdog
    answered = record requested {
      derived = record {
        is_code_assigned = true;
        sequence_code = d.sequencecode;
        connection_state = ConnectionState.connected;
      };
    }

    response_received :
        run_events settings.protocol settings.header_size settings.unset
          (write_completes ∷ write_completes ∷ message_arrives m ∷ [])
          (started settings)
        ≡ returned answered
    unfolding run_events run_event new_watchdog
    response_received =
        request_sent (message_arrives m ∷ [])
        ∙ ap (λ h. h >>= λ c. returned c)
            (received_connects settings.protocol settings.header_size settings.unset requested
              (empty_message settings.unset) true m d has_body is_connect parsed success)

    -- How `main` has ended, and with what connection, when the task has returned a code.
    abbrev Served :
        ServerConfiguration
        → List (ContextWorker W E)
        → ℕ
        → EventManager W E
        → End × Base W E
        → Type 0
    Served configuration workers code manager (end, s') =
        (end ≡ (if code == run_forever then serves else exits code))
        × (s'.watchdog_connection ≡ some (connected_watchdog d.sequencecode))
        × (s'.event_manager ≡ manager)
        × (s'.configuration ≡ configuration)
        × (s'.context_workers ≡ map (share_worker manager) workers)

    module _
        (arrives : settings.during_wait
          ≡ write_completes ∷ write_completes ∷ message_arrives m ∷ []) where
      wait_connects :
          (s : Base W E)
          → s.watchdog_connection ≡ some (started settings)
          → wait_for_connect_response settings s
            ≡ returned
                (true, record s { watchdog_connection = some (connected_watchdog d.sequencecode) })
      unfolding wait_for_connect_response new_watchdog
      wait_connects s e = rw (e, wait_for_connect_response) (rw arrives (rw response_received refl))

      -- A base with the connection made and a thread to join.
      start_service_connects :
          (s : Base W E) (code : ℕ) (manager : EventManager W E)
          → s.watchdog_connection ≡ some (new_watchdog settings.uninitialized)
          → settings.connect_result ≡ accepted
          → 0 < s.io_context_threads
          → settings.task (EventManager.initialize settings.allocated s.event_manager).1
            ≡ returned (code, manager)
          → Returns
              (start_service settings s)
              (Served s.configuration s.context_workers code manager)
      unfolding start_service run_service_task initialize share
      start_service_connects s code manager e accepted_now threads runs =
          let connected : connect_to_watchdog settings s
              ≡ returned (true, record s { watchdog_connection = some (started settings) }) =
            connect_to_watchdog_lem settings s _ e
            ∙ ap (λ r. attempt settings r (new_watchdog settings.uninitialized) s) accepted_now
            ∙ attempt_accepted settings s in
          let joins : ltb 0 s.io_context_threads ≡ true = ground arith in
          rw (connected, start_service)
            (rw (wait_connects (record s { watchdog_connection = some (started settings) }) refl) (
              rw runs (
                rw joins (
                  run_forever_and code,
                  refl,
                  refl,
                  refl,
                  share_worker-twice manager
                      (EventManager.initialize settings.allocated s.event_manager).1
                      s.context_workers,
                ))))

      -- Suppose that the configuration is read, that the worker and the connection are made, that
      -- the watchdog accepts the connection, that the connect request has a body and is written,
      -- and that the watchdog answers it with success and a sequence code while the service waits.
      -- Then `main` runs the service's task on what the event manager is after it has been
      -- initialized. If the task returns RUN_FOREVER, then the service serves, and if it returns
      -- another code, then `main` returns that code; the service holds the sequence code and will
      -- send a ping, it has the configuration, and its workers, to which one has been added, have
      -- started to read and share the event manager's caches.
      pub main_connects :
          (s : Base W E) (configuration : ServerConfiguration) (setup : Setup) (code : ℕ)
          (manager : EventManager W E)
          → read_configuration {X = StartException} settings.file s.configuration
            ≡ returned (true, configuration)
          → settings.sockets ≡ sockets_made setup
          → settings.connect_result ≡ accepted
          → settings.task (EventManager.initialize settings.allocated s.event_manager).1
            ≡ returned (code, manager)
          → Returns (main settings s) (
              Served configuration
                (map start_read (
                  s.context_workers
                  ++ new_worker setup s.event_manager.message_events_cache
                      s.event_manager.subscription_events_cache s.world
                    ∷ []))
                code
                manager)
      unfolding main initialize_sockets read_all join_all add_worker
      main_connects s configuration setup code manager reads made accepted_now runs =
          rw (reads, main)
            (rw made (
              start_service_connects
                (prepared settings (sockets_made setup)
                  (record s { configuration = configuration }))
                code manager refl accepted_now (threads_some _ start_read s.context_workers _)
                runs))
