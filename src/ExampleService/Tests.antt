-- ===== src/ExampleService/Tests.antt =====
-- The example service at work, with two subscribers.
pub mod Database
pub mod Updates
use process_manager_service.Prelude.{
  Option, Outcome, Returns, [], arith, ends_with, if◌then◌else◌, none, refl, returned, some, true,
  ℕ, ◌++◌, ◌==◌, ◌∷◌, ◌≡◌,
}
use process_manager_service.Event.{Any}
use process_manager_service.MongoModulesCollection.{
  Document, ModuleRecord, QueryException, int32, utf8, view_to_module_record, get_module,
}
use process_manager_service.ContextWorker.{
  ServiceMessage, Environment, ContextWorker, datagram, module_request, complete_read,
}
use process_manager_service.ContextWorker.Forwarding.{IsReachable, forwarded}
use process_manager_service.Connection.{accepted}
use process_manager_service.WatchdogResponseHandlers.Connect.{accepts}
use process_manager_service.WatchdogConnection.{connect_response, connect_message}
use process_manager_service.WatchdogConnection.Runs.{write_completes, message_arrives}
use process_manager_service.WatchdogConnection.Tests.{protocol, accepting, message, unset}
use process_manager_service.Configuration.{json_file, number, read_configuration}
use process_manager_service.Configuration.Reading.{json_of, configuration_of}
use process_manager_service.ContextWorker.{bound}
use process_manager_service.ExampleService.Startup.{fresh, IsServing, main-IsServing}
use process_manager_service.ServiceBase.{Settings, sockets_made, new_watchdog, main}
use process_manager_service.ExampleService.{task, Gps, GpsCoordinates, set_coordinates}
use process_manager_service.ExampleService.Task.{
  messages, updates, change_requests, complete_read-set_coordinates,
}

-- A message of the type 1 is an update of module 7 to (3, 4), one of the type 2 a get.
abbrev pub gps : Gps
gps = record {
  is_update = λ any. ends_with any.type_url (1 ∷ []);
  is_get = λ any. ends_with any.type_url (2 ∷ []);
  unpack_update = λ any. record { identifier = 7; x = 3; y = 4 };
  update_type = 1 ∷ [];
  pack_subscribe =
      λ update. record { type_url = 5 ∷ []; value = update.identifier ∷ update.x ∷ update.y ∷ [] };
}

abbrev pub update : Any
update = record { type_url = 1 ∷ []; value = [] }

abbrev pub request : ServiceMessage
request = record {
  sender_identifier = 7;
  operation_code = module_request;
  transaction_code = 5;
  request = some update;
  subscription_request = none;
}

abbrev document : Document
document = record {
  module_identifier = int32 8;
  connection_state = int32 1;
  ip_address = utf8 (49 ∷ []);
  port = int32 4000;
}

abbrev pub find_one : ℕ → Outcome QueryException (Option Document)
find_one n = returned (if n == 8 then some document else none)

abbrev pub found : ℕ → Option ModuleRecord
found n =
    if n == 8
    then some (record { port = 4000; identifier = 8; connection_state = 1; ip_address = 49 ∷ [] })
    else none

-- Protobuf copies nothing into a message of another type.
abbrev pub env : Environment ℕ
env = record {
  service_identifier = 872415233;
  parse_from_string =
      λ bytes. elim bytes as (λ x. Option ServiceMessage) [ [] ↦ none | b ∷ rest ↦ some request ];
  sends_at_once = true;
  get_client = returned find_one;
  endpoint = λ ip_address port. some port;
}

pub reach_all : (n : ℕ) → IsReachable env find_one found (λ r. r.port) n
unfolding get_module view_to_module_record
reach_all n = (ground arith, λ r e. refl)

abbrev pub worker : ContextWorker GpsCoordinates ℕ
worker = record {
  message_events = messages gps;
  subscription_events = updates gps (8 ∷ 9 ∷ []);
  world = [];
  socket = true;
  buffer_size = 1024;
  reads = 1;
  sent = [];
}

complete_read-set_coordinates_example :
    complete_read env (datagram (1 ∷ []) 90) worker
    ≡ returned (record worker {
      world = set_coordinates 7 (record { first = 3; second = 4 }) [];
      sent =
          worker.sent
          ++ forwarded env find_one found (λ r. r.port) (change_requests gps update (8 ∷ 9 ∷ []));
    })
complete_read-set_coordinates_example =
    complete_read-set_coordinates gps env find_one found (λ r. r.port) refl refl (1 ∷ []) 90 request
      update (8 ∷ 9 ∷ []) worker (refl, refl) refl refl refl refl refl (unfold ends_with in refl)
      (unfold ends_with in refl) (unfold ends_with in refl) (reach_all 8, (reach_all 9, tt))

abbrev settings : Settings GpsCoordinates ℕ
settings = record {
  protocol = protocol;
  header_size = 8;
  unset = unset;
  uninitialized = 77;
  file = json_file (json_of (number 5) (number 1) (number 1024) (number 4000));
  sockets = sockets_made bound;
  connect_result = accepted;
  during_wait =
      write_completes ∷ write_completes ∷ message_arrives (message connect_response 1) ∷ [];
  allocated = true;
  task = task gps;
}

main-IsServing_example :
    Returns (main settings (fresh gps {P = ℕ} none none (configuration_of 0 0 0 0))) (IsServing gps)
main-IsServing_example =
    main-IsServing gps {P = ℕ} none none settings (message connect_response 1) accepting
      (configuration_of 0 0 0 0) (configuration_of 5 1 1024 4000)
      (unfold connect_message in omega arith) (omega arith) refl refl
      (unfold new_watchdog accepts in refl) refl (unfold read_configuration in refl) refl refl refl
      refl
