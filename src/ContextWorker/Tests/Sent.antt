-- ===== src/ContextWorker/Tests/Sent.antt =====
-- The message that a service forwards to a subscriber comes to another service.
use process_manager_service.Prelude.{[], refl, returned, some, ℕ, ◌∷◌, ◌≡◌}
use process_manager_service.ContextWorker.{
  Environment, datagram, message_from, new_worker, service_request, start_read, complete_read,
}
use process_manager_service.ContextWorker.Sent.{run-ignored}
use process_manager_service.ContextWorker.Tests.{
  env, gps, run_subscribes, subscribed_and_forwarded, worker, worker-IsReading,
}

-- Another service, which reads a forwarded message in every datagram.
abbrev receiving : Environment ℕ
receiving = record env {
  service_identifier = 4;
  parse_from_string = λ bytes. some (message_from 3 service_request 19 (some gps));
}

run-ignored_example :
    complete_read receiving (datagram (9 ∷ []) 91) (worker (6 ∷ [])) ≡ returned (worker (6 ∷ []))
run-ignored_example =
    run-ignored receiving env (datagram (2 ∷ []) 90 ∷ datagram (1 ∷ []) 90 ∷ []) (worker [])
      (record (worker (7 ∷ [])) { world = 2; sent = subscribed_and_forwarded }) [] [] 4000
      (message_from 3 service_request 19 (some gps)) (9 ∷ []) 91 (worker (6 ∷ []))
      (unfold new_worker start_read in refl) run_subscribes refl (worker-IsReading (6 ∷ [])) refl
