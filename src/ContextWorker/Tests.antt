-- ===== src/ContextWorker/Tests.antt =====
-- A worker with one event of each kind, and the theorems of the worker on it.
pub mod Moves
pub mod Sent
use process_manager_service.Prelude.{
  Returns, Bytes, List, Option, Outcome, [], arith, ends_with, if◌then◌else◌, none, refl, returned,
  some, threw, true, ℕ, ◌++◌, ◌+◌, ◌==◌, ◌>>=◌, ◌∷◌, ◌≡◌,
}
use process_manager_service.Event.{subscription_handle, Any, MessageEvent, Subscription}
use process_manager_service.MessageEventsCache
use process_manager_service.MessageEventsCache.Trigger
use process_manager_service.SubscriptionEventsCache
use process_manager_service.MongoModulesCollection.{
  Document, ModuleRecord, QueryException, int32, utf8, view_to_module_record, get_module,
}
use process_manager_service.ContextWorker.{
  fatal_copy, module_request, service_request, service_response, ServiceMessage, Environment,
  ContextWorker, bound, read_error, datagram, new_worker, start_read, complete_read, run,
  message_from,
}
use process_manager_service.ContextWorker.Reads.{IsReading, run_read_error}
use process_manager_service.ContextWorker.Answers.{complete_read_forwards, complete_read_fatal}
use process_manager_service.ContextWorker.Serves.{IsHealthy, Serving, run-Serving}
use process_manager_service.ContextWorker.Forwarding.{IsReachable, forwarded}

abbrev pub gps : Any
gps = record { type_url = 71 ∷ []; value = 1 ∷ [] }

abbrev pub answer : Any
answer = record { type_url = 65 ∷ []; value = 2 ∷ [] }

abbrev pub gps_request : ServiceMessage
gps_request = record {
  sender_identifier = 7;
  operation_code = module_request;
  transaction_code = 5;
  request = some gps;
  subscription_request = none;
}

abbrev gps_subscription : ServiceMessage
gps_subscription = record gps_request { request = none; subscription_request = some (71 ∷ []) }

abbrev response : ServiceMessage
response = record gps_request { operation_code = service_response }

abbrev parse : Bytes → Option ServiceMessage
parse [] = none
parse (b ∷ bytes) =
    if b == 1 then some gps_request else if b == 2 then some gps_subscription else some response

-- Module 7 has an address and module 8 one that is none; there is no other module.
abbrev document : ℕ → Bytes → Document
document identifier address = record {
  module_identifier = int32 identifier;
  connection_state = int32 1;
  ip_address = utf8 address;
  port = int32 4000;
}

abbrev find_one : ℕ → Outcome QueryException (Option Document)
find_one n =
    returned (
      if n == 7 then some (document 7 (49 ∷ [])) else if n == 8 then some (document 8 []) else none)

abbrev record_of : ℕ → Bytes → ModuleRecord
record_of identifier address = record {
  port = 4000;
  identifier = identifier;
  connection_state = 1;
  ip_address = address;
}

abbrev found : ℕ → Option ModuleRecord
found n =
    if n == 7 then some (record_of 7 (49 ∷ [])) else if n == 8 then some (record_of 8 []) else none

abbrev endpoint : Bytes → ℕ → Option ℕ
endpoint [] port = none
endpoint (b ∷ bytes) port = some port

abbrev pub env : Environment ℕ
env = record {
  service_identifier = 3;
  parse_from_string = parse;
  sends_at_once = true;
  get_client = returned find_one;
  endpoint = endpoint;
}

reach_7 : IsReachable env find_one found (λ r. r.port) 7
unfolding get_module view_to_module_record
reach_7 = (refl, λ r e. ground arith)

reach_6 : IsReachable env find_one found (λ r. r.port) 6
unfolding get_module
reach_6 = (refl, λ r e. ground arith)

-- The callbacks count their calls; this one gives no response.
abbrev pub silent : MessageEvent ℕ ℕ
silent = record {
  callback = some (record { validate = λ any w. (true, w); run = λ sender any w. (none, w + 1) });
}

abbrev answering : MessageEvent ℕ ℕ
answering = record {
  callback =
      some (record { validate = λ any w. (true, w); run = λ sender any w. (some answer, w + 1) });
}

abbrev forwarding : List ℕ → Subscription ℕ
forwarding subscribers = record {
  id = 0;
  message_type = 71 ∷ [];
  subscribers = subscribers;
  event = record { callback = some (record { run = λ any w. (some any, w + 1) }) };
}

abbrev pub worker : List ℕ → ContextWorker ℕ ℕ
worker subscribers = start_read (
    new_worker bound (record { events = (0, silent) ∷ [] })
      (record { events = forwarding subscribers ∷ [] }) 0)

pub worker-IsReading : (subscribers : List ℕ) → IsReading (worker subscribers)
unfolding start_read new_worker
worker-IsReading subscribers = (refl, refl)

-- A module subscribes, and a request of the subscribed type is forwarded.
abbrev pub subscribed_and_forwarded : List (ℕ × ServiceMessage)
subscribed_and_forwarded = (4000, message_from 3 service_request 19 (some gps)) ∷ []

pub run_subscribes :
    run env (datagram (2 ∷ []) 90 ∷ datagram (1 ∷ []) 90 ∷ []) (worker [])
    ≡ returned (record (worker (7 ∷ [])) { world = 2; sent = subscribed_and_forwarded })
unfolding run SubscriptionEventsCache.trigger_message_handlers
    SubscriptionEventsCache.add_subscriber MessageEventsCache.trigger_message_handlers get_module
    new_worker start_read MessageEventsCache.trigger_events MessageEventsCache.trigger_event
    SubscriptionEventsCache.trigger_events SubscriptionEventsCache.trigger_event ends_with
    SubscriptionEventsCache.trigger_subscribers subscription_handle
run_subscribes = refl

run_read_error_example :
    run env (datagram (2 ∷ []) 90 ∷ read_error ∷ datagram (1 ∷ []) 90 ∷ []) (worker [])
    ≡ (run env (datagram (2 ∷ []) 90 ∷ []) (worker []) >>= λ c'. returned (record c' { reads = 0 }))
run_read_error_example =
    run_read_error env (datagram (2 ∷ []) 90 ∷ []) (datagram (1 ∷ []) 90 ∷ []) (worker [])
      (worker-IsReading []) refl

-- The request of module 7 is forwarded to the subscribers 7 and 6, of which 6 is in no record.
complete_read_forwards_example :
    complete_read env (datagram (1 ∷ []) 90) (worker (7 ∷ 6 ∷ []))
    ≡ returned (record (worker (7 ∷ 6 ∷ [])) {
      world = 3;
      sent =
          (worker (7 ∷ 6 ∷ [])).sent
          ++ forwarded env find_one found (λ r. r.port) ((7, gps) ∷ (6, gps) ∷ []);
    })
complete_read_forwards_example =
    complete_read_forwards env find_one found (λ r. r.port) gps (worker (7 ∷ 6 ∷ []))
      ((7, gps) ∷ (6, gps) ∷ []) 1 3 (unfold new_worker start_read in refl) refl refl
      (unfold new_worker start_read SubscriptionEventsCache.trigger_message_handlers
          SubscriptionEventsCache.trigger_events SubscriptionEventsCache.trigger_event ends_with
          SubscriptionEventsCache.trigger_subscribers subscription_handle in
        refl)
      (reach_7, (reach_6, tt)) (1 ∷ []) 90 gps_request (worker-IsReading (7 ∷ 6 ∷ []))
      (unfold new_worker start_read in refl) refl refl
      (unfold new_worker start_read MessageEventsCache.trigger_message_handlers
          MessageEventsCache.trigger_events MessageEventsCache.trigger_event in
        refl)

abbrev answering_worker : ContextWorker ℕ ℕ
answering_worker = record (worker []) { message_events = record { events = (0, answering) ∷ [] } }

complete_read_fatal_example :
    complete_read env (datagram (1 ∷ []) 90) answering_worker ≡ threw fatal_copy
complete_read_fatal_example =
    complete_read_fatal env (1 ∷ []) 90 gps_request gps answering_worker answer [] 1
      (worker-IsReading []) (unfold new_worker start_read in refl) refl refl
      (unfold new_worker start_read MessageEventsCache.trigger_message_handlers
          MessageEventsCache.trigger_events MessageEventsCache.trigger_event in
        refl)

-- Only module 7 is in the database.
abbrev pub find_seven : ℕ → Outcome QueryException (Option Document)
find_seven n = returned (if n == 7 then some (document 7 (49 ∷ [])) else none)

abbrev pub found_seven : ℕ → Option ModuleRecord
found_seven n = if n == 7 then some (record_of 7 (49 ∷ [])) else none

abbrev pub healthy_env : Environment ℕ
healthy_env = record env { get_client = returned find_seven }

pub reach_all : (n : ℕ) → IsReachable healthy_env find_seven found_seven (λ r. r.port) n
unfolding get_module view_to_module_record
reach_all n = (ground arith, λ r e. ground arith)

pub silent-IsHealthy :
    IsHealthy healthy_env find_seven found_seven
      (λ r. r.port)
      (record { events = (0, silent) ∷ [] })
unfolding MessageEventsCache.Trigger.answers MessageEventsCache.Trigger.answer
silent-IsHealthy = (refl, reach_all, λ sender any w. refl, refl)

run-Serving_example :
    Returns
      (run healthy_env
        (datagram (2 ∷ []) 90 ∷ datagram (1 ∷ []) 90 ∷ datagram [] 90 ∷ [])
        (worker (6 ∷ [])))
      (Serving (record { events = (0, silent) ∷ [] }))
run-Serving_example =
    run-Serving healthy_env find_seven found_seven (λ r. r.port)
      (record { events = (0, silent) ∷ [] }) silent-IsHealthy
      (datagram (2 ∷ []) 90 ∷ datagram (1 ∷ []) 90 ∷ datagram [] 90 ∷ []) (worker (6 ∷ []))
      (
        worker-IsReading (6 ∷ []),
        unfold new_worker start_read in ((_, refl), tt),
        unfold new_worker start_read in refl,
      )
      refl
