-- ===== src/SubscriptionEventsCache/Locking/Tests.antt =====
-- A module subscribes, and two triggers then run at once.
use process_manager_service.Prelude.{
  [], bytes_eq, ends_with, map, refl, some, ℕ, List, ◌+◌, ◌++◌, ◌∷◌, ◌≡◌,
}
use process_manager_service.Event.{Any, Subscription, subscription_handle}
use process_manager_service.SubscriptionEventsCache.{subscribe, trigger_event, trigger_subscribers}
use process_manager_service.SubscriptionEventsCache.Delivery.{recipients}
use process_manager_service.SubscriptionEventsCache.Locking.{
  Reader, System, Reach, Call, GoesOn, subscribes, run_calls, shared, begin_trigger, trigger_round,
  begin_subscribe, subscribe_round, end_subscribe, start, later,
}
use process_manager_service.SubscriptionEventsCache.Locking.Whole.{Reach-run_calls}
use process_manager_service.SubscriptionEventsCache.Locking.Finishing.{Reach-released}

abbrev message : Any
message = record { type_url = 71 ∷ []; value = [] }

-- The callback counts its calls.
abbrev event : List ℕ → Subscription ℕ
event subscribers = record {
  id = 0;
  message_type = 71 ∷ [];
  subscribers = subscribers;
  event = record { callback = some (record { run = λ any w. (some any, w + 1) }) };
}

abbrev collected : Reader
collected = record { message = message; position = 1; requests = (7, message) ∷ [] }

abbrev both : System ℕ
both = record {
  events = event (7 ∷ []) ∷ [];
  world = 2;
  lock = shared (collected ∷ collected ∷ []);
}

abbrev fresh_reader : Reader
fresh_reader = record { message = message; position = 0; requests = [] }

both_reached : Reach (event [] ∷ []) 0 (subscribes 7 (71 ∷ []) ∷ []) both
unfolding trigger_event trigger_subscribers subscription_handle ends_with subscribe bytes_eq
both_reached =
    later
      (later
        (later
          (later
            (later
              (later (later start (begin_subscribe 7 (71 ∷ []) refl))
                (subscribe_round _ (event []) refl refl))
              (end_subscribe _ refl refl))
            (begin_trigger message refl))
          (begin_trigger message refl))
        (trigger_round (fresh_reader ∷ []) [] fresh_reader (event (7 ∷ [])) _ _ refl refl refl))
      (trigger_round [] (collected ∷ []) fresh_reader (event (7 ∷ [])) _ _ refl refl refl)

Reach-run_calls_example :
    (event (7 ∷ []) ∷ [] ≡ run_calls (subscribes 7 (71 ∷ []) ∷ []) (event [] ∷ []))
    × (map (λ (q : ℕ × Any). q.0) ((7, message) ∷ []) ≡ recipients message (event (7 ∷ []) ∷ []))
Reach-run_calls_example =
    Reach-run_calls (event [] ∷ []) 0 (subscribes 7 (71 ∷ []) ∷ []) both (collected ∷ []) []
      collected both_reached refl refl ((_, refl, λ any w. (any, refl)), tt)

Reach-released_example :
    (more : List (Call ℕ)) × (t : System ℕ) × GoesOn both more t
    × (t.lock ≡ shared [])
    × (t.events ≡ run_calls ((subscribes 7 (71 ∷ []) ∷ []) ++ more) (event [] ∷ []))
Reach-released_example =
    Reach-released (event [] ∷ []) 0 (subscribes 7 (71 ∷ []) ∷ []) both both_reached ((_, refl), tt)
