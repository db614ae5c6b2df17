-- ===== src/ExampleService/Tests/Updates.antt =====
-- Two modules update their coordinates; the second update comes before the first is handled, and is
-- handled first.
use mathlib.Core.List.{Perm}
use process_manager_service.Prelude.{
  Bytes, List, Option, [], arith, ends_with, none, refl, some, ℕ, ◌∷◌, ◌≡◌,
}
use process_manager_service.MessageEventsCache
use process_manager_service.SubscriptionEventsCache
use process_manager_service.ContextWorker.{
  ServiceMessage, Environment, ContextWorker, start_read, handle_message,
}
use process_manager_service.ContextWorker.Overlap.{
  listening, Server, Reach, arrive, copy_buffer, copy_endpoint, restart, handle, start, later,
}
use process_manager_service.ExampleService.{GpsCoordinates, set_coordinates}
use process_manager_service.ExampleService.Task.{updates}
use process_manager_service.ExampleService.Updates.{stored, stored_after, Reach-last_update}
use process_manager_service.ExampleService.Tests.{gps, request, worker, find_one, found, reach_all}
use process_manager_service.ExampleService.Tests

-- The first byte is the identifier of the module.
abbrev env : Environment ℕ
env = record Tests.env {
  parse_from_string = λ bytes. elim bytes as (λ x. Option ServiceMessage) [
    | [] ↦ none
    | b ∷ rest ↦ some (record request { sender_identifier = b })
  ];
}

abbrev alone : ContextWorker GpsCoordinates ℕ
alone = record worker { subscription_events = updates gps []; buffer_size = 2 }

abbrev two : List (Bytes × ℕ)
two = ((7 ∷ []), 90) ∷ ((8 ∷ 5 ∷ 6 ∷ []), 91) ∷ []

abbrev second_first : GpsCoordinates
second_first = (8, record { first = 3; second = 4 }) ∷ (7, record { first = 3; second = 4 }) ∷ []

abbrev done : Server GpsCoordinates ℕ
done = record {
  worker = record alone { world = second_first };
  message_buffer = 8 ∷ 5 ∷ [];
  remote_endpoint = 91;
  handlers = [];
}

done_reached : Reach env 5 alone (0 ∷ 0 ∷ []) 0 two done
unfolding start_read SubscriptionEventsCache.trigger_message_handlers
    MessageEventsCache.trigger_message_handlers MessageEventsCache.trigger_events
    MessageEventsCache.trigger_event SubscriptionEventsCache.trigger_events
    SubscriptionEventsCache.trigger_event ends_with SubscriptionEventsCache.trigger_subscribers
    handle_message set_coordinates
done_reached =
    later
      (later
        (later
          (later
            (later
              (later
                (later
                  (later
                    (later (later start (arrive (7 ∷ []) 90 (omega arith) (omega arith)))
                      (copy_buffer [] [] 1 refl))
                    (copy_endpoint [] [] (7 ∷ []) refl))
                  (restart [] [] (7 ∷ []) 90 refl))
                (arrive (8 ∷ 5 ∷ 6 ∷ []) 91 (omega arith) (omega arith)))
              (copy_buffer [] (listening (7 ∷ []) 90 ∷ []) 2 refl))
            (copy_endpoint [] (listening (7 ∷ []) 90 ∷ []) (8 ∷ 5 ∷ []) refl))
          (restart [] (listening (7 ∷ []) 90 ∷ []) (8 ∷ 5 ∷ []) 91 refl))
        (handle [] (listening (7 ∷ []) 90 ∷ []) (8 ∷ 5 ∷ []) 91
          (record alone { world = (8, record { first = 3; second = 4 }) ∷ [] }) refl refl))
      (handle [] [] (7 ∷ []) 90 done.worker refl refl)

Reach-last_update_example :
    (order : List (Bytes × ℕ)) × Perm order two
    × (stored second_first ≡ stored_after gps env 2 order [])
Reach-last_update_example =
    Reach-last_update gps env find_one found (λ r. r.port) refl refl reach_all [] 5 alone
      (0 ∷ 0 ∷ []) 0 ((refl, refl), refl, refl) refl done_reached refl (unfold ends_with in refl)
