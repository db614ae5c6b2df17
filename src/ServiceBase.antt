-- ===== src/ServiceBase.antt =====
-- Source/src/ServiceBase.cpp, Source/src/ServiceModulesServer.cpp and Source/src/ServiceMain.cpp: how
-- the service starts. The two event caches belong to Service::Base; they stand in `event_manager`,
-- and the workers, which refer to them, hold the same values (`share`). `Settings` has what the
-- environment decides, the task that a service supplies, and the generated code. The threads run
-- asio's contexts, which have work until they are stopped, and only the destructor stops them.
pub mod Startup
pub mod Failing
pub mod Connects
pub mod Threads
pub mod Pinging
pub mod Tests
use process_manager_service.Prelude.{
  Bool, List, Option, Outcome, [], false, if◌then◌else◌, length, lift, ltb, map, none, not,
  returned, some, true, undefined, ℕ, ◌&&◌, ◌*◌, ◌++◌, ◌+◌, ◌==◌, ◌>>=◌, ◌∷◌,
}
use process_manager_service.Types.{minus_one}
use process_manager_service.Event.{CacheException}
use process_manager_service.DbEnvironment
use process_manager_service.MessageEventsCache
use process_manager_service.SubscriptionEventsCache
use process_manager_service.EventManager.{EventManager}
use process_manager_service.EventManager
use process_manager_service.Connection.{ConnectResult, connect, set_timer_expiration}
use process_manager_service.Connection.Read.{start_reading}
use process_manager_service.WatchdogConnectionState.{ConnectionState}
use process_manager_service.WatchdogResponseHandlers.{ErrorCode}
use process_manager_service.WatchdogConnection.{Operation, Protocol, Watchdog, send_connect_request}
use process_manager_service.WatchdogConnection.Runs.{Event, run_events}
use process_manager_service.Configuration.{ServerConfiguration, File, read_configuration}
use process_manager_service.ContextWorker.{ContextWorker, Setup, new_worker, start_read}

-- Service::ReturnCodes::RUN_FOREVER
abbrev pub run_forever : ℕ
run_forever = 51

pub record Base (W E : Type 0) : Type 0 where
  pub configuration : ServerConfiguration
  pub event_manager : EventManager W E
  pub world : W
  pub context_workers : List (ContextWorker W E)
  pub io_context_threads : ℕ
  pub watchdog_connection : Option Watchdog

-- What becomes of `initializeSockets`: the worker and the connection are made, or making one of
-- them throws.
pub data Sockets : Type 0 where
  worker_fails : Sockets
  connection_fails sockets_made : Setup → Sockets

-- What ends the process with an exception: a handler of the connection's, or the task.
pub data StartException : Type 0 where
  response_exception : ErrorCode → Watchdog → StartException
  task_exception : CacheException → StartException

-- How `main` ends: with a return code, or not at all, for the threads that it joins do not end.
pub data End : Type 0 where
  exits : ℕ → End
  serves : End

-- `unset` is the operation code 0, `uninitialized` what the connection's `sequenceCode` holds before
-- it is set, and `allocated` whether the event manager can be allocated.
pub record Settings (W E : Type 0) : Type 0 where
  pub protocol : Protocol
  pub header_size : ℕ
  pub unset : Operation
  pub uninitialized : ℕ
  pub file : File
  pub sockets : Sockets
  pub connect_result : ConnectResult
  pub during_wait : List Event
  pub allocated : Bool
  pub task : EventManager W E → Outcome CacheException (ℕ × EventManager W E)

abbrev pub response_exceptions : ErrorCode × Watchdog → StartException
response_exceptions (e, c) = response_exception e c

-- The constructors of TcpConnection and WatchdogConnection, on a state that is not connected.
unfoldable pub new_watchdog : ℕ → Watchdog
new_watchdog uninitialized = record {
  socket = some false;
  messages_queue = [];
  incoming_message = none;
  sending_in_progress = false;
  writes = [];
  reads = [];
  waits = [];
  wire = [];
  derived = record {
    is_code_assigned = false;
    sequence_code = uninitialized;
    connection_state = ConnectionState.not_connected;
  };
}

abbrev is_connected_state : ConnectionState → Bool
is_connected_state ConnectionState.connected = true
is_connected_state _ = false

module _ {W E : Type 0} where
  abbrev pub share_worker : EventManager W E → ContextWorker W E → ContextWorker W E
  share_worker manager worker = record worker {
    message_events = manager.message_events_cache;
    subscription_events = manager.subscription_events_cache;
  }

  -- The constructor, on what the construction of the database's pool gives, the pool that there is,
  -- the state of the static event manager, and the static configuration.
  unfoldable pub new_base :
      {P : Type 0} → Option P → Option P → Bool → ServerConfiguration → W → Base W E × Option P
  unfolding DbEnvironment.initialize
  new_base made instance manager configuration w = (
    record {
      configuration = configuration;
      event_manager = record {
        manager = manager;
        message_events_cache = MessageEventsCache.empty_cache;
        subscription_events_cache = SubscriptionEventsCache.empty_cache;
      };
      world = w;
      context_workers = [];
      io_context_threads = 0;
      watchdog_connection = none;
    },
    (DbEnvironment.initialize made instance).1,
  )

  -- The workers see the caches that the event manager writes to.
  unfoldable pub share : EventManager W E → Base W E → Base W E
  share manager s = record s {
    event_manager = manager;
    context_workers = map (share_worker manager) s.context_workers;
  }

  unfoldable pub add_worker : Setup → Base W E → Base W E
  unfolding new_worker
  add_worker setup s = record s {
    context_workers =
        s.context_workers
        ++ new_worker setup s.event_manager.message_events_cache
            s.event_manager.subscription_events_cache s.world
          ∷ [];
  }

  -- The loop over the workers has one round.
  unfoldable pub initialize_sockets : ℕ → Sockets → Base W E → Bool × Base W E
  unfolding add_worker new_watchdog
  initialize_sockets uninitialized worker_fails s = (false, s)
  initialize_sockets uninitialized (connection_fails setup) s = (false, add_worker setup s)
  initialize_sockets uninitialized (sockets_made setup) s = (
    true,
    record (add_worker setup s) { watchdog_connection = some (new_watchdog uninitialized) },
  )

  -- `readAll`, which is `startReadingAll` of ModulesServer.
  unfoldable pub read_all : Base W E → Base W E
  unfolding start_read
  read_all s = record s { context_workers = map start_read s.context_workers }

  -- `joinAll`: each worker's `runAll` starts five threads.
  unfoldable pub join_all : Base W E → Base W E
  join_all s = record s { io_context_threads = s.io_context_threads + 5 * length s.context_workers }

  module _ (settings : Settings W E) where
    -- `connectToWatchdog` through a connection that is not null.
    unfoldable pub attempt :
        ConnectResult → Watchdog → Base W E → Outcome StartException (Bool × Base W E)
    unfolding connect send_connect_request start_reading
    attempt result c s =
        let (connected, c1) = connect result c in
        if connected
        then (lift response_exceptions
              (send_connect_request settings.protocol c1 >>= start_reading settings.unset true)
            >>= λ c2. returned (true, record s { watchdog_connection = some c2 }))
        else returned (false, record s { watchdog_connection = some c1 })

    unfoldable pub connect_to_watchdog : Base W E → Outcome StartException (Bool × Base W E)
    unfolding attempt
    connect_to_watchdog s = elim s.watchdog_connection [
      | none ↦ undefined
      | some c ↦ attempt settings.connect_result c s
    ]

    -- The wait, while the threads run what comes to the connection; it returns the state as it is at
    -- its end.
    unfoldable pub wait_for_connect_response : Base W E → Outcome StartException (Bool × Base W E)
    unfolding set_timer_expiration
    wait_for_connect_response s = elim s.watchdog_connection [
      | none ↦ returned (false, s)
      | some c ↦
          lift response_exceptions (
            run_events settings.protocol settings.header_size settings.unset settings.during_wait c)
          >>= λ c1. returned (
              if is_connected_state c1.derived.connection_state
              then (true, record s { watchdog_connection = some (set_timer_expiration 1000 c1) })
              else (false, record s { watchdog_connection = some c1 }))
    ]

    unfoldable pub initialize : Base W E → Base W E
    unfolding EventManager.initialize share
    initialize s = share (EventManager.initialize settings.allocated s.event_manager).1 s

    -- With RUN_FOREVER the main thread joins those of the contexts, if there are any.
    unfoldable pub run_service_task : Base W E → Outcome StartException (End × Base W E)
    unfolding share
    run_service_task s = lift task_exception (settings.task s.event_manager) >>= λ (code, manager).
        returned (
          if code == run_forever && ltb 0 s.io_context_threads then serves else exits code,
          share manager s,
        )

    -- `main` from the connection to the watchdog on.
    unfoldable pub start_service : Base W E → Outcome StartException (End × Base W E)
    unfolding connect_to_watchdog wait_for_connect_response initialize run_service_task
    start_service s = connect_to_watchdog s >>= λ (connected, s1).
        if not connected
        then returned (exits 0, s1)
        else wait_for_connect_response s1 >>= λ (answered, s2).
            if not answered then returned (exits 0, s2) else run_service_task (initialize s2)

    -- `main`; the result of `initializeSockets` is not looked at.
    unfoldable pub main : Base W E → Outcome StartException (End × Base W E)
    unfolding initialize_sockets read_all join_all start_service
    main s = read_configuration settings.file s.configuration >>= λ (read, configuration).
        let s0 = record s { configuration = configuration } in
        if not read
        then returned (exits minus_one, s0)
        else start_service
            (join_all (read_all (initialize_sockets settings.uninitialized settings.sockets s0).1))
