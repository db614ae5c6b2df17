-- ===== src/Logging/Tests.antt =====
-- A log that is used before it is made, and made twice.
use process_manager_service.Prelude.{[], none, returned, some, true, ◌∷◌, ◌≡◌}
use process_manager_service.Logging.{
  critical_level, trace_level, initializes, traces_in, errors, infos, run_calls,
}
use process_manager_service.Logging.Laws.{log_of, run_calls_lem}

run_calls_example :
    run_calls
      (infos (1 ∷ [])
        ∷ initializes true (80 ∷ []) critical_level
        ∷ errors (2 ∷ [])
        ∷ initializes true (81 ∷ []) trace_level
        ∷ traces_in (3 ∷ []) (4 ∷ [])
        ∷ [])
      none
    ≡ returned (some (log_of (80 ∷ []) (errors (2 ∷ []) ∷ traces_in (3 ∷ []) (4 ∷ []) ∷ [])))
run_calls_example = run_calls_lem (
    infos (1 ∷ [])
    ∷ initializes true (80 ∷ []) critical_level
    ∷ errors (2 ∷ [])
    ∷ initializes true (81 ∷ []) trace_level
    ∷ traces_in (3 ∷ []) (4 ∷ [])
    ∷ [])
