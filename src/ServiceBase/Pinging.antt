-- ===== src/ServiceBase/Pinging.antt =====
-- A service from `main` to the pings that it exchanges with the watchdog.
use process_manager_service.Prelude.{
  All, List, Returns, Returns-mono, length, map, refl, returned, some, true, ℕ, ◌++◌, ◌<◌, ◌∷◌, [],
  ◌≡◌,
}
use process_manager_service.EventManager.{EventManager}
use process_manager_service.EventManager
use process_manager_service.Connection.{Message, accepted, header_read}
use process_manager_service.Connection.Stream.{frames_all}
use process_manager_service.WatchdogResponseHandlers.{ConnectResponseData}
use process_manager_service.WatchdogResponseHandlers.Connect.{accepts}
use process_manager_service.WatchdogConnection.{
  Operation, Watchdog, connect_response, connect_message, ping_message,
}
use process_manager_service.WatchdogConnection.Runs.{write_completes, message_arrives, run_events}
use process_manager_service.WatchdogConnection.Pings.{IsPong, rounds, next_wait, run_events-rounds}
use process_manager_service.Configuration.{ServerConfiguration, read_configuration}
use process_manager_service.ContextWorker.{Setup}
use process_manager_service.ServiceBase.{
  Base, Settings, sockets_made, StartException, new_watchdog, main,
}
use process_manager_service.ServiceBase.Connects.{main_connects, connected_watchdog}

module _ {W E : Type 0} (settings : Settings W E) where
  -- A connection with this sequence code that is open, with nothing queued, and waits for a message.
  abbrev pub IsConnected : ℕ → Watchdog → Type 0
  IsConnected code c =
      (c.socket ≡ some true)
      × (c.derived.sequence_code ≡ code)
      × (c.messages_queue ≡ [])
      × (c.reads ≡ header_read ∷ [])

  -- The connection goes through a round for each answer, and is then what it was, but for the pings
  -- that have gone out and the wait that has been started.
  abbrev pub Pings : ℕ → List (Message Operation) → Watchdog → Type 0
  Pings code pongs c =
      run_events settings.protocol settings.header_size settings.unset
        (rounds settings.protocol settings.header_size settings.unset pongs) c
      ≡ returned (record c {
        waits = next_wait settings.protocol settings.header_size settings.unset 1000 pongs ∷ [];
        wire = c.wire ++ frames_all (map (λ m. ping_message settings.protocol code) pongs);
      })

  -- Suppose that the configuration is read, that the worker and the connection are made, that the
  -- watchdog accepts the connection, that the connect request has a body and is written, that the
  -- watchdog answers it with success and a sequence code while the service waits, and that the
  -- task returns. Then `main` leaves the service with an open connection that holds this code, has
  -- nothing queued and waits for a message. However many times its wait ends, the ping goes out,
  -- which has a body, and the watchdog answers with that code, the connection is the same again,
  -- but that it has set the timer and that one ping has gone out for each time.
  pub main-Pings :
      (m : Message Operation) (d : ConnectResponseData) (s : Base W E)
      (configuration : ServerConfiguration) (setup : Setup) (code : ℕ) (manager : EventManager W E)
      (pongs : List (Message Operation))
      → 0 < length (connect_message settings.protocol).body
      → 0 < m.header.size
      → m.header.operation_code ≡ connect_response
      → settings.protocol.parse_connect_response m.body ≡ some d
      → accepts d (new_watchdog settings.uninitialized).derived ≡ true
      → settings.during_wait ≡ write_completes ∷ write_completes ∷ message_arrives m ∷ []
      → read_configuration {X = StartException} settings.file s.configuration
        ≡ returned (true, configuration)
      → settings.sockets ≡ sockets_made setup
      → settings.connect_result ≡ accepted
      → settings.task (EventManager.initialize settings.allocated s.event_manager).1
        ≡ returned (code, manager)
      → 0 < length (ping_message settings.protocol d.sequencecode).body
      → All (IsPong settings.protocol settings.header_size settings.unset d.sequencecode) pongs
      → Returns (main settings s) (λ (end, s').
        (c : Watchdog) × (s'.watchdog_connection ≡ some c)
        × IsConnected d.sequencecode c
        × Pings d.sequencecode pongs c)
  unfolding new_watchdog
  main-Pings m d s configuration setup code manager pongs has_request has_body is_connect parsed
        success arrives reads made accepted_now runs has_ping answered =
      let c = connected_watchdog settings d.sequencecode in
      Returns-mono (main settings s) _ _
        (main_connects settings m d has_request has_body is_connect parsed success arrives s
          configuration setup code manager reads made accepted_now runs)
        λ (end, s') (ended, connection, manager_same, configured, workers). (
          c,
          connection,
          (refl, refl, refl, refl),
          run_events-rounds settings.protocol settings.header_size settings.unset pongs c 1000 refl
              has_ping answered,
        )
