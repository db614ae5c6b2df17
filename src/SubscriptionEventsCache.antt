-- ===== src/SubscriptionEventsCache.antt =====
-- Source/src/ServiceSubscriptionEventsCache.cpp: the events that forward a message to the modules
-- that subscribed to its type. Each method holds the cache's lock from its first statement to its
-- end, so a method is one step. An event pointer in the vector is never null, since
-- `addSubscriptionEvent` is the one place that adds to it.
pub mod Ids
pub mod Delivery
pub mod Locking
pub mod Recipients
pub mod Tests
use process_manager_service.Prelude.{
  Bytes, List, Option, Outcome, [], bytes_eq, ends_with, if◌then◌else◌, length, map, none, returned,
  some, threw, ℕ, ◌++◌, ◌==◌, ◌>>=◌, ◌∷◌,
}
use process_manager_service.Event.{
  Any, SubscribeEvent, Subscription, CacheException, null_event, subscription_handle,
}
use process_manager_service.Event.Ids.{new_event_id}

pub record SubscriptionEventsCache (W : Type 0) : Type 0 where
  pub events : List (Subscription W)

-- `if (newMessage.has_value()) serviceRequests.push_back(...)`
abbrev pub push_request : List (ℕ × Any) → ℕ → Option Any → List (ℕ × Any)
push_request requests subscriber none = requests
push_request requests subscriber (some message) = requests ++ (subscriber, message) ∷ []

module _ {W : Type 0} where
  abbrev pub ids : SubscriptionEventsCache W → List ℕ
  ids c = map (λ e. e.id) c.events

  abbrev pub empty_cache : SubscriptionEventsCache W
  empty_cache = record { events = [] }

  unfoldable pub get_new_event_id : SubscriptionEventsCache W → ℕ
  get_new_event_id c = new_event_id (ids c) 0

  unfoldable pub add_subscription_event :
      Bytes
      → Option (SubscribeEvent W)
      → SubscriptionEventsCache W
      → Outcome CacheException (ℕ × SubscriptionEventsCache W)
  add_subscription_event subscribe_type none c = threw null_event
  add_subscription_event subscribe_type (some event) c =
      let new_id = get_new_event_id c in
      let new_subscription : Subscription W = record {
        id = new_id;
        message_type = subscribe_type;
        subscribers = [];
        event = event;
      } in
      returned (new_id, record { events = c.events ++ new_subscription ∷ [] })

  -- The inner loop, over the subscribers of one event.
  unfoldable pub trigger_subscribers :
      Any
      → SubscribeEvent W
      → List ℕ
      → List (ℕ × Any) × W
      → Outcome CacheException (List (ℕ × Any) × W)
  trigger_subscribers any event [] done = returned done
  trigger_subscribers any event (subscriber ∷ subscribers) (requests, w) =
      subscription_handle event any w >>= λ (message, w').
      trigger_subscribers any event subscribers (push_request requests subscriber message, w')

  -- The body of the outer loop.
  unfoldable pub trigger_event :
      Any → Subscription W → List (ℕ × Any) × W → Outcome CacheException (List (ℕ × Any) × W)
  trigger_event any event done =
      if ends_with any.type_url event.message_type
      then trigger_subscribers any event.event event.subscribers done
      else returned done

  unfoldable pub trigger_events :
      Any → List (Subscription W) → List (ℕ × Any) × W → Outcome CacheException (List (ℕ × Any) × W)
  trigger_events any [] done = returned done
  trigger_events any (event ∷ events) done =
      trigger_event any event done >>= λ done'. trigger_events any events done'

  unfoldable pub trigger_message_handlers :
      SubscriptionEventsCache W → Any → W → Outcome CacheException (List (ℕ × Any) × W)
  trigger_message_handlers c any w = trigger_events any c.events ([], w)

  unfoldable pub size : SubscriptionEventsCache W → ℕ
  size c = length c.events

  unfoldable subscribe : ℕ → Subscription W → Subscription W
  subscribe module_identifier event = record event {
    subscribers = event.subscribers ++ module_identifier ∷ [];
  }

  -- The overload that takes a type.
  unfoldable pub add_subscriber : ℕ → Bytes → SubscriptionEventsCache W → SubscriptionEventsCache W
  unfolding subscribe
  add_subscriber module_identifier type_url c = record {
    events =
        map
          (λ event.
            if bytes_eq event.message_type type_url
            then subscribe module_identifier event
            else event)
          c.events;
  }

  -- `std::find_if` by id, and the append at the event that it finds.
  unfoldable pub subscribe_at : ℕ → ℕ → List (Subscription W) → List (Subscription W)
  unfolding subscribe
  subscribe_at identifier event_id [] = []
  subscribe_at identifier event_id (event ∷ events) =
      if event.id == event_id
      then subscribe identifier event ∷ events
      else event ∷ subscribe_at identifier event_id events

  -- The overload that takes the id of an event.
  unfoldable pub add_subscriber_by_id :
      ℕ → ℕ → SubscriptionEventsCache W → SubscriptionEventsCache W
  unfolding subscribe_at
  add_subscriber_by_id identifier event_id c = record {
    events = subscribe_at identifier event_id c.events;
  }
