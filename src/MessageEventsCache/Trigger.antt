-- ===== src/MessageEventsCache/Trigger.antt =====
-- What MessageEventsCache::triggerMessageHandlers answers.
use process_manager_service.Prelude.{
  >>=-assoc, >>=-returned, List, Option, [], ap, append-nil, append_assoc, arith, false, fun_ext,
  map, none, refl, returned, some, true, ℕ, ◌++◌, ◌>>=◌, ◌∙◌, ◌∷◌, ◌≡◌,
}
use process_manager_service.Event.{Any, Sender, MessageEvent}
use process_manager_service.MessageEventsCache.{
  MessageEventsCache, add_message_event, trigger_event, trigger_events, trigger_message_handlers,
  get_new_event_id,
}

abbrev listed : Option Any → List Any
listed none = []
listed (some response) = response ∷ []

module _ {W E : Type 0} (sender : Sender E) (any : Any) where
  -- What one event answers: nothing if it has no callback or its callback refuses the message.
  unfoldable pub answer : MessageEvent W E → W → List Any × W
  answer event w = elim event.callback [
    | none ↦ ([], w)
    | some c ↦ elim (c.validate any w).0 [
      | true ↦ (
        listed (c.run sender any (c.validate any w).1).0,
        (c.run sender any (c.validate any w).1).1,
      )
      | false ↦ ([], (c.validate any w).1)
    ]
  ]

  -- The answers of all events in order, each event on the state that the one before it left.
  unfoldable pub answers : List (MessageEvent W E) → W → List Any × W
  answers [] w = ([], w)
  answers (event ∷ events) w =
      let (now, w1) = answer event w in let (later, w2) = answers events w1 in (now ++ later, w2)

  trigger_event_lem :
      (event : MessageEvent W E) (responses : List Any) (w : W)
      → trigger_event sender any event (responses, w)
        ≡ returned (responses ++ (answer event w).0, (answer event w).1)
  unfolding trigger_event answer
  trigger_event_lem event responses w = ground (arith, append-nil responses)

  trigger_events_lem :
      (events : List (ℕ × MessageEvent W E)) (responses : List Any) (w : W)
      → trigger_events sender any events (responses, w)
        ≡ returned (
          responses ++ (answers (map (λ e. e.1) events) w).0,
          (answers (map (λ e. e.1) events) w).1,
        )
  unfolding trigger_events answers
  trigger_events_lem [] responses w = rw append-nil
  trigger_events_lem ((id, event) ∷ events) responses w = rw (trigger_event_lem event responses w) (
      trigger_events_lem events (responses ++ (answer event w).0) (answer event w).1
      ∙ rw append_assoc)

  -- Triggering the handlers always returns: an event with no callback is skipped, never called.
  -- The responses are those of the events whose callback accepts the message, in the order of the
  -- events, and each callback sees the users' state that the earlier ones left.
  pub trigger_message_handlers_lem :
      (c : MessageEventsCache W E) (w : W)
      → trigger_message_handlers c sender any w ≡ returned (answers (map (λ e. e.1) c.events) w)
  unfolding trigger_message_handlers
  trigger_message_handlers_lem c w = trigger_events_lem c.events [] w

  trigger_events-append :
      (es fs : List (ℕ × MessageEvent W E)) (done : List Any × W)
      → trigger_events sender any (es ++ fs) done
        ≡ (trigger_events sender any es done >>= trigger_events sender any fs)
  unfolding trigger_events
  trigger_events-append [] fs done = refl
  trigger_events-append ((id, e) ∷ es) fs done =
      rw
        (>>=-assoc (trigger_event sender any e done) (trigger_events sender any es)
          (trigger_events sender any fs))
        (ap (λ k. trigger_event sender any e done >>= k)
          (fun_ext λ done'. trigger_events-append es fs done'))

  -- An event that has been added answers after all events that were there before.
  trigger_message_handlers-add :
      (event : MessageEvent W E) (c c' : MessageEventsCache W E) (id : ℕ) (w : W)
      → add_message_event (some event) c ≡ returned (id, c')
      → trigger_message_handlers c' sender any w
        ≡ (trigger_message_handlers c sender any w >>= trigger_event sender any event)
  unfolding trigger_message_handlers add_message_event trigger_events
  trigger_message_handlers-add event c c' id w e =
      let added : c'.events ≡ c.events ++ (get_new_event_id c, event) ∷ [] = cc in
      rw added (
        trigger_events-append c.events ((get_new_event_id c, event) ∷ []) ([], w)
        ∙ ap (λ k. trigger_events sender any c.events ([], w) >>= k)
            (fun_ext λ done. >>=-returned (trigger_event sender any event done)))
