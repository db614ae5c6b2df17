-- ===== src/ServiceBase/Tests/Pinging.antt =====
-- A service that starts, connects, and exchanges two pings with the watchdog.
use process_manager_service.Prelude.{Returns, [], arith, refl, some, ◌∷◌, ◌≡◌}
use process_manager_service.WatchdogResponseHandlers.Connect.{accepts}
use process_manager_service.WatchdogConnection.{
  Watchdog, connect_response, ping_response, connect_message, ping_message,
}
use process_manager_service.WatchdogConnection.Tests.{accepting, message}
use process_manager_service.Configuration.{read_configuration}
use process_manager_service.Configuration.Reading.{configuration_of}
use process_manager_service.ContextWorker.{bound}
use process_manager_service.ServiceBase.{run_forever, new_watchdog, main}
use process_manager_service.ServiceBase.Pinging.{IsConnected, Pings, main-Pings}
use process_manager_service.ServiceBase.Tests.{with_event, service, task_lem, connecting}

main-Pings_example : Returns (main connecting service) (λ (end, s').
    (c : Watchdog) × (s'.watchdog_connection ≡ some c)
    × IsConnected connecting 9 c
    × Pings connecting 9 (message ping_response 9 ∷ message ping_response 9 ∷ []) c)
main-Pings_example =
    main-Pings connecting (message connect_response 1) accepting service
      (configuration_of 5 1 1024 4000) bound run_forever with_event
      (message ping_response 9 ∷ message ping_response 9 ∷ [])
      (unfold connect_message in omega arith) (omega arith) refl refl
      (unfold new_watchdog accepts in refl) refl (unfold read_configuration in refl) refl refl
      task_lem (unfold ping_message in omega arith)
      ((omega arith, refl, refl), ((omega arith, refl, refl), tt))
