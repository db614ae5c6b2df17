-- ===== src/EventManager/Registration.antt =====
-- What a registration through the event manager returns.
use process_manager_service.Prelude.{
  Bool, Bytes, [], arith, false, none, refl, returned, some, true, undefined, ℕ, ◌++◌, ◌<◌, ◌∷◌,
  ◌≡◌,
}
use process_manager_service.Event.{MessageEvent, SubscribeEvent}
use process_manager_service.Event.Ids.{id_count}
use process_manager_service.MessageEventsCache.{add_message_event}
use process_manager_service.MessageEventsCache
use process_manager_service.MessageEventsCache.Ids.{IsDense, get_new_event_id-IsDense}
use process_manager_service.EventManager.{
  EventManager, initialize, register_new_event_handler, register_new_subscription_handler,
}

module _ {W E : Type 0} where
  -- After an initialization that reports success, and on caches that hold fewer than 2 ^ 32 events
  -- under their positions, registering a handler returns the position of the new event and puts
  -- the handler behind the events that were there. The key that the caller gives plays no part.
  pub register_new_event_handler_lem :
      (allocated : Bool) (s0 s : EventManager W E) (key : ℕ) (handler : MessageEvent W E)
      → initialize allocated s0 ≡ (true, s)
      → IsDense s.message_events_cache
      → MessageEventsCache.size s.message_events_cache < id_count
      → register_new_event_handler key (some handler) s
        ≡ returned (
          some (MessageEventsCache.size s.message_events_cache),
          record s {
            message_events_cache = record {
              events =
                  s.message_events_cache.events
                  ++ (MessageEventsCache.size s.message_events_cache, handler) ∷ [];
            };
          },
        )
  unfolding initialize register_new_event_handler add_message_event
  register_new_event_handler_lem allocated s0 s key handler ready dense room =
      let present : s.manager ≡ true = ground arith in
      rw (present, get_new_event_id-IsDense s.message_events_cache dense room)

  -- With no manager a handler is registered through a null pointer, which is undefined; a null
  -- handler is not registered, with or without a manager, and nothing is returned.
  register_null :
      (s : EventManager W E) (key : ℕ) (type : Bytes) (handler : MessageEvent W E)
      (event : SubscribeEvent W)
      → (register_new_event_handler key none s ≡ returned (none, s))
        × (register_new_subscription_handler type none s ≡ returned (none, s))
        × (s.manager ≡ false
            → (register_new_event_handler key (some handler) s ≡ undefined)
              × (register_new_subscription_handler type (some event) s ≡ undefined))
  unfolding register_new_event_handler register_new_subscription_handler
  register_null s key type handler event = (refl, refl, λ e. (rw e, rw e))
