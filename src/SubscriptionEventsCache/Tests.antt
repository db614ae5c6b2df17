-- ===== src/SubscriptionEventsCache/Tests.antt =====
-- Runs of the subscription events cache, and its theorems at concrete events.
use process_manager_service.Prelude.{
  Returns, List, Bytes, [], ends_with, refl, returned, some, ℕ, ◌+◌, ◌∷◌, ◌≡◌,
}
use process_manager_service.Event.{
  Any, SubscribeCallback, SubscribeEvent, Subscription, subscription_handle,
}
use mathlib.Core.List.Perm
use process_manager_service.SubscriptionEventsCache.Recipients.{
  by_module, subscribe_all, deposit_all, trigger-subscribe_all,
}
use process_manager_service.SubscriptionEventsCache.{
  SubscriptionEventsCache, trigger_message_handlers, trigger_events, trigger_event,
  trigger_subscribers,
}
use process_manager_service.SubscriptionEventsCache.Delivery.{matching, recipients, matching}

abbrev forward : SubscribeCallback ℕ
forward = record { run = λ any w. (some any, w + 1) }

abbrev forwarder : SubscribeEvent ℕ
forwarder = record { callback = some forward }

-- The type is "AB"; modules 3 and 4 have subscribed, 3 twice.
abbrev subscribed : Subscription ℕ
subscribed = record {
  id = 0;
  message_type = 65 ∷ 66 ∷ [];
  subscribers = 3 ∷ 4 ∷ 3 ∷ [];
  event = forwarder;
}

abbrev one_event : SubscriptionEventsCache ℕ
one_event = record { events = subscribed ∷ [] }

-- The type url is "/AB".
abbrev message : Any
message = record { type_url = 47 ∷ 65 ∷ 66 ∷ []; value = [] }

forwarded :
    trigger_message_handlers one_event message 0
    ≡ returned ((3, message) ∷ (4, message) ∷ (3, message) ∷ [], 3)
unfolding trigger_message_handlers trigger_events trigger_event trigger_subscribers
    subscription_handle ends_with
forwarded = refl

-- The type url "/CAB" of another type ends with "AB" too.
abbrev other_type : Any
other_type = record { type_url = 47 ∷ 67 ∷ 65 ∷ 66 ∷ []; value = [] }

other_type-recipients : recipients other_type (subscribed ∷ []) ≡ 3 ∷ 4 ∷ 3 ∷ []
unfolding recipients ends_with
other_type-recipients = refl

-- Module 5 subscribes to the type, and module 3 to another.
abbrev subscriptions : List (ℕ × Bytes)
subscriptions = (5, 65 ∷ 66 ∷ []) ∷ (3, 67 ∷ []) ∷ []

abbrev reversed : List (ℕ × Bytes)
reversed = (3, 67 ∷ []) ∷ (5, 65 ∷ 66 ∷ []) ∷ []

trigger-subscribe_all_example :
    Returns
      (trigger_message_handlers (subscribe_all reversed one_event) message 5)
      (λ (requests, w').
        by_module requests
        ≡ deposit_all
            (λ type. matching message type one_event.events)
            subscriptions
            (by_module ((3, message) ∷ (4, message) ∷ (3, message) ∷ [])))
trigger-subscribe_all_example =
    trigger-subscribe_all message subscriptions reversed one_event 0 3 5
      ((3, message) ∷ (4, message) ∷ (3, message) ∷ [])
      (Perm.swap (3, 67 ∷ []) (5, 65 ∷ 66 ∷ []) []) ((forward, refl, λ any w. (any, refl)), tt)
      forwarded
