-- ===== src/MessageEventsCache/Tests.antt =====
-- Runs of the message events cache, and its theorems at concrete events.
use process_manager_service.Prelude.{
  All, Returns, [], arith, length, none, refl, returned, some, ℕ, ◌++◌, ◌+◌, ◌==◌, ◌∷◌, ◌≡◌, ◌≢◌,
  ◌<◌, ◌%◌, ◌↔◌,
}
use process_manager_service.Event.{Any, Sender, MessageEvent}
use process_manager_service.Event.Ids.{id_count, new_event_id}
use process_manager_service.MessageEventsCache.{
  MessageEventsCache, ids, add_message_event, trigger_event, trigger_message_handlers, size,
  get_new_event_id, trigger_events,
}
use process_manager_service.MessageEventsCache.Ids.{
  IsDense, add_message_event-IsDense, add_message_event-bounds,
}
use process_manager_service.MessageEventsCache.Trigger.{answers, trigger_message_handlers_lem}

-- Accepts a message whose type url has the length `n`, counts its calls, and echoes the message.
abbrev echo : ℕ → MessageEvent ℕ ℕ
echo n = record {
  callback = some (record {
    validate = λ any w. (length any.type_url == n, w);
    run = λ sender any w. (some any, w + 1);
  });
}

abbrev null_callback : MessageEvent ℕ ℕ
null_callback = record { callback = none }

abbrev two_events : MessageEventsCache ℕ ℕ
two_events = record { events = (0, echo 2) ∷ (1, null_callback) ∷ [] }

abbrev sender : Sender ℕ
sender = record { sender_identifier = 7; sender_endpoint = 9 }

abbrev message : Any
message = record { type_url = 65 ∷ 66 ∷ []; value = [] }

echoed : trigger_message_handlers two_events sender message 4 ≡ returned (message ∷ [], 5)
unfolding trigger_message_handlers trigger_events trigger_event
echoed = refl

two_events-IsDense : IsDense two_events
two_events-IsDense = omega arith

-- A scan of ids that do not count up from 0 can return an id that is taken.
taken_id : get_new_event_id (record { events = (1, echo 2) ∷ (0, echo 2) ∷ [] }) ≡ 0
unfolding get_new_event_id new_event_id
taken_id = refl

add_message_event-IsDense_example :
    Returns (add_message_event (some (echo 3)) two_events) (λ (id, c').
      All (λ old. old ≢ id) (ids two_events)
      × IsDense c'
      × (c'.events ≡ two_events.events ++ (id, echo 3) ∷ [])
      × (size c' ≡ size two_events + 1))
add_message_event-IsDense_example =
    add_message_event-IsDense (echo 3) two_events two_events-IsDense (unfold size in omega arith)

trigger_message_handlers_example :
    trigger_message_handlers two_events sender message 4
    ≡ returned (answers sender message (echo 2 ∷ null_callback ∷ []) 4)
trigger_message_handlers_example = trigger_message_handlers_lem sender message two_events 4

add_message_event-bounds_example :
    Returns (add_message_event (some (echo 3)) two_events) (λ (id, c').
      (id < id_count)
      × (id ≡ size two_events % id_count)
      × (All (λ old. old ≢ id) (ids two_events) ↔ (size two_events < id_count))
      × (size c' ≡ size two_events + 1))
add_message_event-bounds_example =
    add_message_event-bounds (echo 3) two_events two_events-IsDense (unfold size in omega arith)
