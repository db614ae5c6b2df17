-- ===== src/MessageEventsCache/Ids.antt =====
-- The ids that MessageEventsCache::addMessageEvent gives out.
use process_manager_service.Prelude.{
  >>=-Returns, All, List, Outcome, Returns, Returns-mono, [], append-nil, append_assoc, arith,
  length, length-append, length-map, map, map-append, refl, returned, some, sym, ◌++◌, ◌+◌, ◌<◌,
  ◌>>=◌, ◌∙◌, ◌∷◌, ◌≡◌, ◌%◌, ◌↔◌, ◌≢◌, ◌≤◌,
}
use process_manager_service.Event.{MessageEvent, CacheException}
use process_manager_service.Event.Ids.{
  id_count, new_event_id, new_event_id-modulo, new_event_id-fresh, CountUp, new_event_id-CountUp,
  CountUp-snoc, CountUp-above,
}
use process_manager_service.MessageEventsCache.{
  MessageEventsCache, ids, empty_cache, get_new_event_id, add_message_event, size,
}

module _ {W E : Type 0} where
  -- The ids are the positions of the events.
  abbrev pub IsDense : MessageEventsCache W E → Type 0
  IsDense c = CountUp 0 (ids c)

  length-ids : (c : MessageEventsCache W E) → length (ids c) ≡ size c
  unfolding size
  length-ids c = length-map c.events (λ e. e.0)

  pub get_new_event_id-IsDense :
      (c : MessageEventsCache W E) → IsDense c → size c < id_count → get_new_event_id c ≡ size c
  unfolding get_new_event_id
  get_new_event_id-IsDense c d b =
      new_event_id-CountUp (ids c) 0 d (omega (arith, length-ids c)) ∙ omega (arith, length-ids c)

  -- Adding an event to a cache whose ids are the positions of its events, and that holds fewer
  -- than 2 ^ 32 of them, returns an id that no event of the cache has; the ids of the new cache
  -- are again the positions of its events, the old events and their ids stay as they were, the
  -- new one stands last, and the size is one more.
  pub add_message_event-IsDense :
      (event : MessageEvent W E) (c : MessageEventsCache W E)
      → IsDense c
      → size c < id_count
      → Returns (add_message_event (some event) c) (λ (id, c').
        All (λ old. old ≢ id) (ids c)
        × IsDense c'
        × (c'.events ≡ c.events ++ (id, event) ∷ [])
        × (size c' ≡ size c + 1))
  unfolding add_message_event size
  add_message_event-IsDense event c d b =
      let e : get_new_event_id c ≡ size c = get_new_event_id-IsDense c d b in
      (
        CountUp-above (ids c) 0 (get_new_event_id c) d (omega (arith, length-ids c)),
        dense e,
        refl,
        length-append c.events ((get_new_event_id c, event) ∷ []),
      )
    where
      dense :
          get_new_event_id c ≡ size c
          → CountUp 0 (map (λ e. e.0) (c.events ++ (get_new_event_id c, event) ∷ []))
      dense e =
          rw (map-append (λ e. e.0) c.events ((get_new_event_id c, event) ∷ []), position)
            (CountUp-snoc (ids c) 0 d)
        where
          position : get_new_event_id c ≡ 0 + length (ids c)
          position = omega (arith, length-ids c, e)

  -- Adding an event to a cache whose ids are the positions of its events, and that holds at most
  -- 2 ^ 32 of them, returns a uint32_t, the number of the events modulo 2 ^ 32. No event of the cache
  -- has that id exactly when there are fewer than 2 ^ 32; the one that is added to a full cache
  -- gets the id of the first. In both cases the cache has one event more.
  pub add_message_event-bounds :
      (event : MessageEvent W E) (c : MessageEventsCache W E)
      → IsDense c
      → size c ≤ id_count
      → Returns (add_message_event (some event) c) (λ (id, c').
        (id < id_count)
        × (id ≡ size c % id_count)
        × (All (λ old. old ≢ id) (ids c) ↔ (size c < id_count))
        × (size c' ≡ size c + 1))
  unfolding add_message_event get_new_event_id size
  add_message_event-bounds event c d b =
      let value = new_event_id-modulo (ids c) d (omega (arith, length-ids c)) in
      let fresh = new_event_id-fresh (ids c) d (omega (arith, length-ids c)) in
      (
        omega (arith, value),
        omega (arith, value, length-ids c),
        (
          λ new. omega (arith, fresh.0 new, length-ids c),
          λ below. fresh.1 (omega (arith, length-ids c)),
        ),
        length-append c.events ((new_event_id (ids c) 0, event) ∷ []),
      )

  -- Add the events in turn, as the service's task does through the event manager.
  unfoldable add_all :
      List (MessageEvent W E)
      → MessageEventsCache W E
      → Outcome CacheException (MessageEventsCache W E)
  add_all [] c = returned c
  add_all (event ∷ events) c = add_message_event (some event) c >>= λ (id, c'). add_all events c'

  add_all-IsDense :
      (events : List (MessageEvent W E)) (c : MessageEventsCache W E)
      → IsDense c
      → size c + length events ≤ id_count
      → Returns
          (add_all events c)
          (λ c'. IsDense c' × (map (λ e. e.1) c'.events ≡ map (λ e. e.1) c.events ++ events))
  unfolding add_all
  add_all-IsDense [] c d b = (d, sym (append-nil _))
  add_all-IsDense (event ∷ events) c d b =
      >>=-Returns (add_message_event (some event) c) (λ (id, c'). add_all events c') _ _
        (add_message_event-IsDense event c d (omega arith))
        λ (id, c') p.
          Returns-mono (add_all events c') _ _ (add_all-IsDense events c' p.1 (omega arith))
            λ c'' q. (q.0, q.1 ∙ rw p.2 (simp (map-append, append_assoc)))

-- From the empty cache, up to 2 ^ 32 events can be added; the events then stand in the order in
-- which they were added, and the id of each is its position.
add_all-empty :
    {W E : Type 0} (events : List (MessageEvent W E))
    → length events ≤ id_count
    → Returns
        (add_all events empty_cache)
        (λ c. CountUp 0 (map (λ e. e.0) c.events) × (map (λ e. e.1) c.events ≡ events))
add_all-empty events b = add_all-IsDense events empty_cache tt (unfold size in omega arith)
