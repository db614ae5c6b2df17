-- ===== src/ServiceBase/Tests.antt =====
-- Starts of a service, and the theorems of `main` on them.
pub mod Pinging
use process_manager_service.Prelude.{
  length, ◌<◌, ◌↔◌, map, Outcome, [], none, refl, returned, some, true, false, ℕ, ◌+◌, ◌>>=◌, ◌∷◌,
  ◌≡◌,
}
use process_manager_service.MessageEventsCache
use process_manager_service.SubscriptionEventsCache
use process_manager_service.Event.{CacheException, MessageEvent}
use process_manager_service.Event.Ids.{new_event_id}
use process_manager_service.Connection.Write.{send_message}
use process_manager_service.WatchdogResponseHandlers.{handle_connect}
use process_manager_service.EventManager.{EventManager, register_new_event_handler}
use process_manager_service.EventManager
use process_manager_service.Connection.{accepted}
use process_manager_service.WatchdogConnection.{
  connect_response, connect_message, handle_received_message,
}
use process_manager_service.WatchdogConnection.Runs.{
  write_completes, message_arrives, run_event, run_events,
}
use process_manager_service.WatchdogConnection.Tests.{protocol, message, unset}
use process_manager_service.Configuration.{json_file, number, read_configuration}
use process_manager_service.Configuration.Reading.{json_of, configuration_of}
use process_manager_service.ContextWorker.{bound}
use process_manager_service.ServiceBase.{
  Base, Settings, Sockets, sockets_made, serves, main, run_forever, join_all,
}
use process_manager_service.ServiceBase.Startup.{MayRun, main_serves}
use process_manager_service.ServiceBase.Threads.{run_workers, join_threads, destroy_base}
use process_manager_service.ServiceBase.Threads.Laws.{joined, destroy_base-run_workers}
use process_manager_service.ServiceBase.Connects.{connected_watchdog}

abbrev answering : MessageEvent ℕ ℕ
answering = record {
  callback = some (record { validate = λ any w. (true, w); run = λ sender any w. (none, w + 1) });
}

abbrev no_events : EventManager ℕ ℕ
no_events = record {
  manager = false;
  message_events_cache = MessageEventsCache.empty_cache;
  subscription_events_cache = SubscriptionEventsCache.empty_cache;
}

abbrev pub with_event : EventManager ℕ ℕ
with_event = record no_events {
  manager = true;
  message_events_cache = record { events = (0, answering) ∷ [] };
}

-- The service registers one handler and asks to be run.
abbrev task : EventManager ℕ ℕ → Outcome CacheException (ℕ × EventManager ℕ ℕ)
task s = register_new_event_handler 1 (some answering) s >>= λ (id, s'). returned (run_forever, s')

abbrev settings : Sockets → Settings ℕ ℕ
settings sockets = record {
  protocol = protocol;
  header_size = 8;
  unset = unset;
  uninitialized = 77;
  file = json_file (json_of (number 5) (number 1) (number 1024) (number 4000));
  sockets = sockets;
  connect_result = accepted;
  during_wait =
      write_completes ∷ write_completes ∷ message_arrives (message connect_response 1) ∷ [];
  allocated = true;
  task = task;
}

abbrev pub service : Base ℕ ℕ
service = record {
  configuration = configuration_of 0 0 0 0;
  event_manager = no_events;
  world = 0;
  context_workers = [];
  io_context_threads = 0;
  watchdog_connection = none;
}

pub task_lem : task (EventManager.initialize true no_events).1 ≡ returned (run_forever, with_event)
unfolding EventManager.initialize register_new_event_handler MessageEventsCache.add_message_event
    MessageEventsCache.get_new_event_id new_event_id
task_lem = refl

abbrev pub connecting : Settings ℕ ℕ
connecting = settings (sockets_made bound)

-- The service when it has come to serve.
abbrev serving : Base ℕ ℕ
serving = record {
  configuration = configuration_of 5 1 1024 4000;
  event_manager = with_event;
  world = 0;
  context_workers =
      record {
        message_events = with_event.message_events_cache;
        subscription_events = with_event.subscription_events_cache;
        world = 0;
        socket = true;
        buffer_size = 1024;
        reads = 1;
        sent = [];
      }
      ∷ [];
  io_context_threads = 5;
  watchdog_connection = some (connected_watchdog connecting 9);
}

main-serving : main connecting service ≡ returned (serves, serving)
unfolding main read_configuration send_message run_events run_event connect_message
    handle_received_message handle_connect register_new_event_handler
    MessageEventsCache.add_message_event MessageEventsCache.get_new_event_id new_event_id
main-serving = refl

main_serves_example : MayRun connecting service
main_serves_example = main_serves connecting service serving refl main-serving

-- The service with its worker, before the threads are started.
abbrev idle : Base ℕ ℕ
idle = record serving { io_context_threads = 0 }

destroy_base-run_workers_example :
    ((join_all idle).io_context_threads ≡ length (run_workers 0 (false ∷ []) []))
    × ((join_threads (false ∷ []) (run_workers 0 (false ∷ []) []) ≡ none) ↔ (0 < 1))
    × (destroy_base (false ∷ []) (run_workers 0 (false ∷ []) [])
        ≡ some (map joined (run_workers 0 (false ∷ []) [])))
destroy_base-run_workers_example = destroy_base-run_workers idle (false ∷ []) refl refl (refl, tt)
