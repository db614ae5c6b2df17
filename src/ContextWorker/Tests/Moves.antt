-- ===== src/ContextWorker/Tests/Moves.antt =====
-- The worker of the tests, moved before it reads.
use process_manager_service.Prelude.{[], map, ◌∷◌, ◌≡◌}
use process_manager_service.ContextWorker.{datagram, start_read, run}
use process_manager_service.ContextWorker.Moves.{emptied, move_worker, run-move_worker}
use process_manager_service.ContextWorker.Tests.{env, worker}

run-move_worker_example :
    run env
      (datagram (2 ∷ []) 90 ∷ datagram (1 ∷ []) 90 ∷ [])
      (start_read (move_worker (worker [])).0)
    ≡ run env
        (map emptied (datagram (2 ∷ []) 90 ∷ datagram (1 ∷ []) 90 ∷ []))
        (start_read (move_worker (worker [])).0)
run-move_worker_example =
    run-move_worker env (worker []) (datagram (2 ∷ []) 90 ∷ datagram (1 ∷ []) 90 ∷ [])
