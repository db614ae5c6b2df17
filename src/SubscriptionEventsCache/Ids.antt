-- ===== src/SubscriptionEventsCache/Ids.antt =====
-- The ids that SubscriptionEventsCache::addSubscriptionEvent gives out.
use process_manager_service.Prelude.{
  All, Bytes, List, Returns, [], arith, length, length-map, map, map-append, refl, some, ℕ, ◌++◌,
  ◌+◌, ◌<◌, ◌∙◌, ◌∷◌, ◌≡◌, ◌≢◌,
}
use process_manager_service.Event.{SubscribeEvent, Subscription}
use process_manager_service.Event.Ids.{
  id_count, CountUp, new_event_id-CountUp, CountUp-snoc, CountUp-above,
}
use process_manager_service.SubscriptionEventsCache.{
  SubscriptionEventsCache, ids, get_new_event_id, add_subscription_event, size, subscribe_at,
  add_subscriber, add_subscriber_by_id,
}

module _ {W : Type 0} where
  -- The ids are the positions of the events.
  abbrev pub IsDense : SubscriptionEventsCache W → Type 0
  IsDense c = CountUp 0 (ids c)

  length-ids : (c : SubscriptionEventsCache W) → length (ids c) ≡ size c
  unfolding size
  length-ids c = length-map c.events (λ e. e.id)

  get_new_event_id-IsDense :
      (c : SubscriptionEventsCache W) → IsDense c → size c < id_count → get_new_event_id c ≡ size c
  unfolding get_new_event_id
  get_new_event_id-IsDense c d b =
      new_event_id-CountUp (ids c) 0 d (omega (arith, length-ids c)) ∙ omega (arith, length-ids c)

  -- Adding a subscription event to a cache whose ids are the positions of its events, and that
  -- holds fewer than 2 ^ 32 of them, returns an id that no event of the cache has; the ids of the
  -- new cache are again positions, and the event stands last, with the given type and with no
  -- subscriber, behind the old events.
  pub add_subscription_event-IsDense :
      (type : Bytes) (event : SubscribeEvent W) (c : SubscriptionEventsCache W)
      → IsDense c
      → size c < id_count
      → Returns (add_subscription_event type (some event) c) (λ (id, c').
        All (λ old. old ≢ id) (ids c)
        × IsDense c'
        × (c'.events
            ≡ c.events
              ++ record { id = id; message_type = type; subscribers = []; event = event } ∷ []))
  unfolding add_subscription_event size
  add_subscription_event-IsDense type event c d b =
      let e : get_new_event_id c ≡ size c = get_new_event_id-IsDense c d b in
      (CountUp-above (ids c) 0 (get_new_event_id c) d (omega (arith, length-ids c)), dense e, refl)
    where
      added : Subscription W
      added = record {
        id = get_new_event_id c;
        message_type = type;
        subscribers = [];
        event = event;
      }

      dense : get_new_event_id c ≡ size c → CountUp 0 (map (λ e. e.id) (c.events ++ added ∷ []))
      dense e =
          rw (map-append (λ e. e.id) c.events (added ∷ []), position) (CountUp-snoc (ids c) 0 d)
        where
          position : get_new_event_id c ≡ 0 + length (ids c)
          position = omega (arith, length-ids c, e)

  ids-subscribe_at :
      (m k : ℕ) (es : List (Subscription W))
      → map (λ e. e.id) (subscribe_at m k es) ≡ map (λ e. e.id) es
  unfolding subscribe_at
  ids-subscribe_at m k [] = refl
  ids-subscribe_at m k (e ∷ es) = ground (arith, ids-subscribe_at m k es)

  ids-add :
      (m : ℕ) (type : Bytes) (es : List (Subscription W))
      → ids (add_subscriber m type (record { events = es })) ≡ map (λ e. e.id) es
  unfolding add_subscriber
  ids-add m type [] = refl
  ids-add m type (e ∷ es) = ground (arith, ids-add m type es)

  -- A new subscriber, by type or by the id of an event, changes the id of no event.
  ids-add_subscriber :
      (m k : ℕ) (type : Bytes) (c : SubscriptionEventsCache W)
      → (ids (add_subscriber m type c) ≡ ids c) × (ids (add_subscriber_by_id m k c) ≡ ids c)
  unfolding add_subscriber_by_id
  ids-add_subscriber m k type c = (ids-add m type c.events, ids-subscribe_at m k c.events)
