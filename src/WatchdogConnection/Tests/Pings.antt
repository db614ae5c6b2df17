-- ===== src/WatchdogConnection/Tests/Pings.antt =====
-- Two pings, each answered.
use process_manager_service.Prelude.{[], arith, map, refl, returned, ◌++◌, ◌∷◌, ◌≡◌}
use process_manager_service.Connection.Stream.{frames_all}
use process_manager_service.WatchdogConnection.{ping_response, ping_message}
use process_manager_service.WatchdogConnection.Runs.{run_events}
use process_manager_service.WatchdogConnection.Pings.{settled, rounds, run_events-rounds}
use process_manager_service.WatchdogConnection.Tests.{protocol, message, unset, reading}

run_events-rounds_example :
    run_events protocol 8 unset
      (rounds protocol 8 unset (message ping_response 0 ∷ message ping_response 0 ∷ []))
      (settled protocol 8 unset reading 1000)
    ≡ returned (
        settled protocol 8 unset
          (record reading {
            wire =
                reading.wire
                ++ frames_all (
                    map
                      (λ m. ping_message protocol 0)
                      (message ping_response 0 ∷ message ping_response 0 ∷ []));
          })
          3000)
run_events-rounds_example =
    run_events-rounds protocol 8 unset (message ping_response 0 ∷ message ping_response 0 ∷ [])
      reading 1000 refl (unfold ping_message in omega arith)
      ((omega arith, refl, refl), ((omega arith, refl, refl), tt))
