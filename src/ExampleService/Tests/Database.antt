-- ===== src/ExampleService/Tests/Database.antt =====
-- The example service without a database, with no subscriber at first.
use process_manager_service.Prelude.{
  false, Option, Outcome, [], ends_with, if◌then◌else◌, none, refl, returned, some, undefined, ℕ,
  ◌==◌, ◌∷◌, ◌≡◌,
}
use process_manager_service.MongoModulesCollection.{Document, QueryException}
use process_manager_service.ContextWorker.{
  WorkerException, ServiceMessage, Environment, ContextWorker, datagram, run,
}
use process_manager_service.Configuration.Reading.{configuration_of}
use process_manager_service.DbEnvironment.{get_client}
use process_manager_service.ServiceBase.{new_base}
use process_manager_service.ExampleService.{GpsCoordinates}
use process_manager_service.ExampleService.Task.{updates}
use process_manager_service.ExampleService.Database.{run_without_database}
use process_manager_service.ExampleService.Tests.{gps, update, request, worker}
use process_manager_service.ExampleService.Tests

abbrev subscription : ServiceMessage
subscription = record request {
  sender_identifier = 8;
  request = none;
  subscription_request = some (1 ∷ []);
}

abbrev env : Environment ℕ
env = record Tests.env {
  parse_from_string = λ bytes. elim bytes as (λ x. Option ServiceMessage) [
    | [] ↦ none
    | b ∷ rest ↦ some (if b == 2 then subscription else request)
  ];
  get_client = undefined;
}

abbrev acquire : ℕ → Outcome WorkerException (ℕ → Outcome QueryException (Option Document))
acquire pool = returned λ n. returned none

abbrev alone : ContextWorker GpsCoordinates ℕ
alone = record worker { subscription_events = updates gps [] }

run_without_database_example :
    run env (datagram (2 ∷ []) 90 ∷ datagram (1 ∷ []) 91 ∷ datagram [] 92 ∷ []) alone ≡ undefined
run_without_database_example =
    run_without_database gps env false (configuration_of 0 0 0 0) acquire (2 ∷ []) (1 ∷ []) 90 91
      subscription request update [] alone (datagram [] 92 ∷ [])
      (unfold new_base get_client in refl) (refl, refl) refl refl refl refl refl refl refl refl refl
      (unfold ends_with in refl) (unfold ends_with in refl) (unfold ends_with in refl)
