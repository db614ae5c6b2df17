-- ===== src/EventManager.antt =====
-- Source/src/EventManager.cpp: the static object through which a service's task registers its
-- handlers. The caches are those of the one Service::Base, to which the manager holds references;
-- `manager` says whether the static pointer is set. `allocated` is whether `new` succeeds.
pub mod Registration
use process_manager_service.Prelude.{
  Bool, Bytes, Option, Outcome, false, if◌then◌else◌, none, not, returned, some, threw, true,
  undefined, ℕ,
}
use process_manager_service.Event.{MessageEvent, SubscribeEvent, CacheException}
use process_manager_service.MessageEventsCache.{MessageEventsCache, add_message_event}
use process_manager_service.SubscriptionEventsCache.{
  SubscriptionEventsCache, add_subscription_event,
}

pub record EventManager (W E : Type 0) : Type 0 where
  pub manager : Bool
  pub message_events_cache : MessageEventsCache W E
  pub subscription_events_cache : SubscriptionEventsCache W

module _ {W E : Type 0} where
  unfoldable pub initialize : Bool → EventManager W E → Bool × EventManager W E
  initialize allocated s =
      if not s.manager
      then (if allocated then (true, record s { manager = true }) else (false, s))
      else (true, s)

  -- The `try` block: the id if the cache returns one, and nothing if it throws.
  unfoldable caught_id :
      {C : Type 0}
      → (C → EventManager W E)
      → EventManager W E
      → Outcome CacheException (ℕ × C)
      → Outcome CacheException (Option ℕ × EventManager W E)
  caught_id put s (returned (id, cache)) = returned (some id, put cache)
  caught_id put s (threw exception) = returned (none, s)
  caught_id put s undefined = undefined

  unfoldable pub register_new_event_handler :
      ℕ
      → Option (MessageEvent W E)
      → EventManager W E
      → Outcome CacheException (Option ℕ × EventManager W E)
  unfolding caught_id
  register_new_event_handler key none s = returned (none, s)
  register_new_event_handler key (some handler) s =
      if s.manager
      then caught_id (λ cache. record s { message_events_cache = cache }) s
          (add_message_event (some handler) s.message_events_cache)
      else undefined

  unfoldable pub register_new_subscription_handler :
      Bytes
      → Option (SubscribeEvent W)
      → EventManager W E
      → Outcome CacheException (Option ℕ × EventManager W E)
  unfolding caught_id
  register_new_subscription_handler subscribe_type none s = returned (none, s)
  register_new_subscription_handler subscribe_type (some event) s =
      if s.manager
      then caught_id (λ cache. record s { subscription_events_cache = cache }) s
          (add_subscription_event subscribe_type (some event) s.subscription_events_cache)
      else undefined
