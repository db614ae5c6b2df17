-- ===== src/MessageEventsCache.antt =====
-- Source/src/ServiceMessageEventsCache.cpp: the events that answer requests. Each method holds the
-- cache's lock from its first statement to its end, so a method is one step. An event pointer in
-- the vector is never null, since `addMessageEvent` is the one place that adds to it.
pub mod Ids
pub mod Trigger
pub mod Tests
use process_manager_service.Prelude.{
  List, Option, Outcome, [], if◌then◌else◌, length, map, none, returned, some, threw, ℕ, ◌++◌,
  ◌>>=◌, ◌∷◌,
}
use process_manager_service.Event.{
  Any, Sender, MessageEvent, CacheException, null_event, validate_message, handle_received_message,
}
use process_manager_service.Event.Ids.{new_event_id}

pub record MessageEventsCache (W E : Type 0) : Type 0 where
  pub events : List (ℕ × MessageEvent W E)

-- `if (response.has_value()) responses.emplace_back(*response)`
abbrev emplace_response : List Any → Option Any → List Any
emplace_response responses none = responses
emplace_response responses (some response) = responses ++ response ∷ []

module _ {W E : Type 0} where
  abbrev pub ids : MessageEventsCache W E → List ℕ
  ids c = map (λ e. e.0) c.events

  abbrev pub empty_cache : MessageEventsCache W E
  empty_cache = record { events = [] }

  unfoldable pub get_new_event_id : MessageEventsCache W E → ℕ
  get_new_event_id c = new_event_id (ids c) 0

  unfoldable pub add_message_event :
      Option (MessageEvent W E)
      → MessageEventsCache W E
      → Outcome CacheException (ℕ × MessageEventsCache W E)
  add_message_event none c = threw null_event
  add_message_event (some event) c =
      let id = get_new_event_id c in returned (id, record { events = c.events ++ (id, event) ∷ [] })

  -- The body of the loop over the events, on the responses so far and the users' state.
  unfoldable pub trigger_event :
      Sender E → Any → MessageEvent W E → List Any × W → Outcome CacheException (List Any × W)
  unfolding validate_message handle_received_message
  trigger_event sender any event (responses, w) =
      let (valid, w1) = validate_message event any w in
      if valid
      then (do
        (response, w2) ← handle_received_message event sender any w1
        returned (emplace_response responses response, w2))
      else returned (responses, w1)

  unfoldable pub trigger_events :
      Sender E
      → Any
      → List (ℕ × MessageEvent W E)
      → List Any × W
      → Outcome CacheException (List Any × W)
  trigger_events sender any [] done = returned done
  trigger_events sender any ((id, event) ∷ events) done =
      trigger_event sender any event done >>= λ done'. trigger_events sender any events done'

  unfoldable pub trigger_message_handlers :
      MessageEventsCache W E → Sender E → Any → W → Outcome CacheException (List Any × W)
  trigger_message_handlers c sender any w = trigger_events sender any c.events ([], w)

  unfoldable pub size : MessageEventsCache W E → ℕ
  size c = length c.events
