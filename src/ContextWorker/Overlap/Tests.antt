-- ===== src/ContextWorker/Overlap/Tests.antt =====
-- Two datagrams: a request comes while the handler of a subscription has yet to parse its copy, and
-- is handled first.
use process_manager_service.Prelude.{
  some, ends_with, returned, Bytes, List, [], arith, refl, ◌∷◌, ◌≡◌, ℕ,
}
use mathlib.Core.List.{Perm}
use process_manager_service.Event.{subscription_handle}
use process_manager_service.MongoModulesCollection.{get_module}
use process_manager_service.SubscriptionEventsCache
use process_manager_service.MessageEventsCache
use process_manager_service.ContextWorker.{
  ContextWorker, message_from, new_worker, start_read, service_request, run, handle_message,
}
use process_manager_service.ContextWorker.Tests.{
  gps, healthy_env, found_seven, find_seven, silent, silent-IsHealthy, worker, worker-IsReading,
}
use process_manager_service.ContextWorker.Overlap.{
  listening, Server, Reach, GoesOn, arrive, copy_buffer, copy_endpoint, restart, handle, start,
  later,
}
use process_manager_service.ContextWorker.Overlap.Taking.{datagrams}
use process_manager_service.ContextWorker.Overlap.Whole.{Reach-run, Reach-run_alone}
use process_manager_service.ContextWorker.Overlap.Finishing.{Reach-finishes}

abbrev small : ContextWorker ℕ ℕ
small = record (worker []) { buffer_size = 2 }

abbrev two : List (Bytes × ℕ)
two = ((2 ∷ []), 90) ∷ ((1 ∷ 5 ∷ 6 ∷ []), 91) ∷ []

-- Both handlers have their copies.
abbrev overlapping : Server ℕ ℕ
overlapping = record {
  worker = small;
  message_buffer = 1 ∷ 5 ∷ [];
  remote_endpoint = 91;
  handlers = listening (1 ∷ 5 ∷ []) 91 ∷ listening (2 ∷ []) 90 ∷ [];
}

overlapping_reached : Reach healthy_env 5 small (0 ∷ 0 ∷ []) 0 two overlapping
unfolding start_read new_worker
overlapping_reached =
    later
      (later
        (later
          (later
            (later
              (later
                (later (later start (arrive (2 ∷ []) 90 (omega arith) (omega arith)))
                  (copy_buffer [] [] 1 refl))
                (copy_endpoint [] [] (2 ∷ []) refl))
              (restart [] [] (2 ∷ []) 90 refl))
            (arrive (1 ∷ 5 ∷ 6 ∷ []) 91 (omega arith) (omega arith)))
          (copy_buffer [] (listening (2 ∷ []) 90 ∷ []) 2 refl))
        (copy_endpoint [] (listening (2 ∷ []) 90 ∷ []) (1 ∷ 5 ∷ []) refl))
      (restart [] (listening (2 ∷ []) 90 ∷ []) (1 ∷ 5 ∷ []) 91 refl)

-- The request has been handled, before the subscription is in the cache.
abbrev answered : ContextWorker ℕ ℕ
answered = record small { world = 1 }

abbrev done : Server ℕ ℕ
done = record overlapping {
  worker = record answered { subscription_events = (worker (7 ∷ [])).subscription_events };
  handlers = [];
}

done_reached : Reach healthy_env 5 small (0 ∷ 0 ∷ []) 0 two done
unfolding start_read new_worker SubscriptionEventsCache.trigger_message_handlers
    SubscriptionEventsCache.add_subscriber MessageEventsCache.trigger_message_handlers
    MessageEventsCache.trigger_events MessageEventsCache.trigger_event
    SubscriptionEventsCache.trigger_events SubscriptionEventsCache.trigger_event ends_with
    SubscriptionEventsCache.trigger_subscribers handle_message
done_reached =
    later
      (later overlapping_reached
        (handle [] (listening (2 ∷ []) 90 ∷ []) (1 ∷ 5 ∷ []) 91 answered refl refl))
      (handle [] [] (2 ∷ []) 90 done.worker refl refl)

Reach-run_example :
    (order : List (Bytes × ℕ)) × Perm order two
    × (run healthy_env (datagrams order) small ≡ returned done.worker)
Reach-run_example =
    Reach-run healthy_env 5 small (0 ∷ 0 ∷ []) 0 (worker-IsReading []) refl done_reached refl

Reach-finishes_example :
    (t : Server ℕ ℕ) × GoesOn healthy_env 5 overlapping t
    × (t.handlers ≡ [])
    × (order : List (Bytes × ℕ)) × Perm order two
    × (run healthy_env (datagrams order) small ≡ returned t.worker)
Reach-finishes_example =
    Reach-finishes healthy_env find_seven found_seven (λ r. r.port)
      (record { events = (0, silent) ∷ [] }) silent-IsHealthy 5 small (0 ∷ 0 ∷ []) 0
      (
        worker-IsReading [],
        unfold new_worker start_read in ((_, refl), tt),
        unfold new_worker start_read in refl,
      )
      refl overlapping_reached

-- On one thread the request comes when the subscription has been handled.
abbrev one_by_one : Server ℕ ℕ
one_by_one = record {
  worker = record (worker (7 ∷ [])) {
    buffer_size = 2;
    world = 2;
    sent = (4000, message_from 3 service_request 19 (some gps)) ∷ [];
  };
  message_buffer = 1 ∷ 5 ∷ [];
  remote_endpoint = 91;
  handlers = [];
}

one_by_one_reached : Reach healthy_env 1 small (0 ∷ 0 ∷ []) 0 two one_by_one
unfolding start_read new_worker SubscriptionEventsCache.trigger_message_handlers
    SubscriptionEventsCache.add_subscriber MessageEventsCache.trigger_message_handlers
    MessageEventsCache.trigger_events MessageEventsCache.trigger_event get_module
    SubscriptionEventsCache.trigger_events SubscriptionEventsCache.trigger_event ends_with
    SubscriptionEventsCache.trigger_subscribers handle_message subscription_handle
one_by_one_reached =
    later
      (later
        (later
          (later
            (later
              (later
                (later
                  (later
                    (later (later start (arrive (2 ∷ []) 90 (omega arith) (omega arith)))
                      (copy_buffer [] [] 1 refl))
                    (copy_endpoint [] [] (2 ∷ []) refl))
                  (restart [] [] (2 ∷ []) 90 refl))
                (handle [] [] (2 ∷ []) 90 (record (worker (7 ∷ [])) { buffer_size = 2 }) refl refl))
              (arrive (1 ∷ 5 ∷ 6 ∷ []) 91 (omega arith) (omega arith)))
            (copy_buffer [] [] 2 refl))
          (copy_endpoint [] [] (1 ∷ 5 ∷ []) refl))
        (restart [] [] (1 ∷ 5 ∷ []) 91 refl))
      (handle [] [] (1 ∷ 5 ∷ []) 91 one_by_one.worker refl refl)

Reach-run_alone_example : run healthy_env (datagrams two) small ≡ returned one_by_one.worker
Reach-run_alone_example =
    Reach-run_alone healthy_env 1 small (0 ∷ 0 ∷ []) 0 refl (worker-IsReading []) refl
      one_by_one_reached refl
