-- ===== src/SubscriptionEventsCache/Delivery.antt =====
-- To whom SubscriptionEventsCache::triggerMessageHandlers sends, and how `addSubscriber` changes it.
use process_manager_service.Prelude.{
  >>=-Returns, >>=-undefined, All, Bool-cases, Bytes, List, Option, Returns, Returns-mono, [],
  append-nil, append_assoc, arith, bytes_eq, count, count-append, ends_with, if◌then◌else◌, inl,
  inr, map, map-append, none, some, sym, true, undefined, ℕ, ◌&&◌, ◌++◌, ◌+◌, ◌==◌, ◌∙◌, ◌∷◌, ◌≡◌,
  ◌≤◌,
}
use process_manager_service.Event.{
  Any, SubscribeCallback, SubscribeEvent, Subscription, subscription_handle,
}
use process_manager_service.SubscriptionEventsCache.{
  SubscriptionEventsCache, push_request, trigger_subscribers, trigger_event, trigger_events,
  trigger_message_handlers, add_subscriber,
}

destinations-push_request :
    (requests : List (ℕ × Any)) (s : ℕ) (reply : Any)
    → map (λ r. r.0) (push_request requests s (some reply)) ≡ map (λ r. r.0) requests ++ s ∷ []
destinations-push_request requests s reply = map-append (λ r. r.0) requests ((s, reply) ∷ [])

push_request-le :
    (n : ℕ) (requests : List (ℕ × Any)) (s : ℕ) (message : Option Any)
    → count n (map (λ r. r.0) (push_request requests s message))
      ≤ count n (map (λ r. r.0) requests) + (if s == n then 1 else 0)
push_request-le n requests s none = omega arith
push_request-le n requests s (some reply) =
    rw (destinations-push_request requests s reply)
      (omega (arith, count-append n (map (λ r. r.0) requests) (s ∷ [])))

module _ {W : Type 0} where
  -- The subscribers of the events that match the message, in order and with repetitions.
  unfoldable pub recipients : Any → List (Subscription W) → List ℕ
  recipients any [] = []
  recipients any (event ∷ events) =
      (if ends_with any.type_url event.message_type then event.subscribers else [])
      ++ recipients any events

  -- How many events of a type match the message.
  unfoldable pub matching : Any → Bytes → List (Subscription W) → ℕ
  matching any type [] = 0
  matching any type (event ∷ events) =
      (if bytes_eq event.message_type type && ends_with any.type_url event.message_type
        then 1
        else 0)
      + matching any type events

  recipients-add :
      (any : Any) (n m : ℕ) (type : Bytes) (es : List (Subscription W))
      → count n (recipients any (add_subscriber m type (record { events = es })).events)
        ≡ count n (recipients any es) + (if m == n then matching any type es else 0)
  unfolding recipients matching add_subscriber
  recipients-add any n m type [] = ground arith
  recipients-add any n m type (e ∷ es) =
      let rest : List (Subscription W) = (add_subscriber m type (record { events = es })).events in
      ground (
        arith,
        recipients-add any n m type es,
        count-append n e.subscribers (m ∷ []),
        count-append n e.subscribers (recipients any es),
        count-append n e.subscribers (recipients any rest),
        count-append n (e.subscribers ++ m ∷ []) (recipients any rest),
      )

  -- A subscription to a type adds one copy of a message to the subscriber for each event of that
  -- type that the message matches, also if the module had subscribed before, and adds none to any
  -- other module.
  pub recipients-add_subscriber :
      (any : Any) (n m : ℕ) (type : Bytes) (c : SubscriptionEventsCache W)
      → count n (recipients any (add_subscriber m type c).events)
        ≡ count n (recipients any c.events) + (if m == n then matching any type c.events else 0)
  recipients-add_subscriber any n m type c = recipients-add any n m type c.events

  abbrev pub HasCallback : Subscription W → Type 0
  HasCallback e = (c : SubscribeCallback W) × (e.event.callback ≡ some c)

  -- Every callback answers every message.
  abbrev pub AlwaysReplies : Subscription W → Type 0
  AlwaysReplies e =
      (c : SubscribeCallback W) × (e.event.callback ≡ some c)
      × ((any : Any) (w : W) → (reply : Any) × ((c.run any w).0 ≡ some reply))

  abbrev destinations : List (ℕ × Any) × W → List ℕ
  destinations done = map (λ r. r.0) done.0

  trigger_subscribers-le :
      (n : ℕ) (any : Any) (e : SubscribeEvent W) (c : SubscribeCallback W) (subs : List ℕ)
      (done : List (ℕ × Any) × W)
      → e.callback ≡ some c
      → Returns
          (trigger_subscribers any e subs done)
          (λ done'. count n (destinations done') ≤ count n (destinations done) + count n subs)
  unfolding trigger_subscribers subscription_handle
  trigger_subscribers-le n any e c [] done h = omega arith
  trigger_subscribers-le n any e c (s ∷ subs) (requests, w) h = rw h (
      Returns-mono
        (trigger_subscribers any e subs (push_request requests s (c.run any w).0, (c.run any w).1))
        _ _ (trigger_subscribers-le n any e c subs _ h)
        λ done' p. omega (arith, p, push_request-le n requests s (c.run any w).0))

  pub trigger_event-le :
      (n : ℕ) (any : Any) (e : Subscription W) (done : List (ℕ × Any) × W)
      → HasCallback e
      → Returns (trigger_event any e done) (λ done'.
        count n (destinations done')
        ≤ count n (destinations done) + count n (recipients any (e ∷ [])))
  unfolding recipients trigger_event
  trigger_event-le n any e done (c, has) =
      elim (Bool-cases (ends_with any.type_url e.message_type)) [
        | inl match ↦
            rw (match, append-nil) (trigger_subscribers-le n any e.event c e.subscribers done has)
        | inr other ↦ rw other (omega arith)
      ]

  recipients-cons :
      (n : ℕ) (any : Any) (e : Subscription W) (es : List (Subscription W))
      → count n (recipients any (e ∷ es))
        ≡ count n (recipients any (e ∷ [])) + count n (recipients any es)
  unfolding recipients
  recipients-cons n any e es =
      ground
        (arith, count-append n e.subscribers (recipients any es), count-append n e.subscribers [])

  trigger_events-le :
      (n : ℕ) (any : Any) (es : List (Subscription W)) (done : List (ℕ × Any) × W)
      → All HasCallback es
      → Returns (trigger_events any es done) (λ done'.
        count n (destinations done') ≤ count n (destinations done) + count n (recipients any es))
  unfolding trigger_events
  trigger_events-le n any [] done h = omega arith
  trigger_events-le n any (e ∷ es) done (has, h) =
      >>=-Returns (trigger_event any e done) _ _ _ (trigger_event-le n any e done has) λ mid p.
        Returns-mono (trigger_events any es mid) _ _ (trigger_events-le n any es mid h)
          λ done' q. omega (arith, p, q, recipients-cons n any e es)

  -- If every event has a callback, then triggering returns, and it sends to no module more often
  -- than the module is among the recipients; so to none that subscribed to no matching event.
  pub trigger_message_handlers-le :
      (n : ℕ) (any : Any) (c : SubscriptionEventsCache W) (w : W)
      → All HasCallback c.events
      → Returns
          (trigger_message_handlers c any w)
          (λ (requests, w'). count n (map (λ r. r.0) requests) ≤ count n (recipients any c.events))
  unfolding trigger_message_handlers
  trigger_message_handlers-le n any c w h =
      Returns-mono (trigger_events any c.events ([], w)) _ _
        (trigger_events-le n any c.events ([], w) h) λ done' p. omega (arith, p)

  trigger_subscribers-eq :
      (any : Any) (e : Subscription W) (subs : List ℕ) (done : List (ℕ × Any) × W)
      → AlwaysReplies e
      → Returns
          (trigger_subscribers any e.event subs done)
          (λ done'. destinations done' ≡ destinations done ++ subs)
  unfolding trigger_subscribers subscription_handle
  trigger_subscribers-eq any e [] done h = sym (append-nil _)
  trigger_subscribers-eq any e (s ∷ subs) (requests, w) (c, has, replies) =
      let (reply, is_reply) = replies any w in
      rw (has, is_reply)
        (Returns-mono
          (trigger_subscribers any e.event subs
            (push_request requests s (some reply), (c.run any w).1))
          _ _ (trigger_subscribers-eq any e subs _ (c, has, replies))
          λ done' p. p ∙ simp (destinations-push_request, append_assoc))

  pub trigger_events-eq :
      (any : Any) (es : List (Subscription W)) (done : List (ℕ × Any) × W)
      → All AlwaysReplies es
      → Returns
          (trigger_events any es done)
          (λ done'. destinations done' ≡ destinations done ++ recipients any es)
  unfolding trigger_events recipients trigger_event
  trigger_events-eq any [] done h = sym (append-nil _)
  trigger_events-eq any (e ∷ es) done (replies, h) =
      elim (Bool-cases (ends_with any.type_url e.message_type)) [
        | inl match ↦ rw match (
            >>=-Returns (trigger_subscribers any e.event e.subscribers done) _ _ _
              (trigger_subscribers-eq any e e.subscribers done replies)
              λ mid p.
                Returns-mono (trigger_events any es mid) _ _ (trigger_events-eq any es mid h)
                  λ done' q. q ∙ rw p (simp append_assoc))
        | inr other ↦ rw other (trigger_events-eq any es done h)
      ]

  -- If every event has a callback, and the callbacks answer every message, then triggering
  -- returns one request for each recipient, in the order of the events and of their subscribers.
  pub trigger_message_handlers-eq :
      (any : Any) (c : SubscriptionEventsCache W) (w : W)
      → All AlwaysReplies c.events
      → Returns
          (trigger_message_handlers c any w)
          (λ (requests, w'). map (λ r. r.0) requests ≡ recipients any c.events)
  unfolding trigger_message_handlers
  trigger_message_handlers-eq any c w h = trigger_events-eq any c.events ([], w) h

  trigger_events-undefined :
      (any : Any) (es fs : List (Subscription W)) (e : Subscription W) (s : ℕ) (subs : List ℕ)
      (done : List (ℕ × Any) × W)
      → All HasCallback es
      → e.event.callback ≡ none
      → e.subscribers ≡ s ∷ subs
      → ends_with any.type_url e.message_type ≡ true
      → trigger_events any (es ++ e ∷ fs) done ≡ undefined
  unfolding trigger_events trigger_event trigger_subscribers subscription_handle
  trigger_events-undefined any [] fs e s subs (requests, w) h null sub match = rw (match, sub, null)
  trigger_events-undefined any (x ∷ es) fs e s subs done h null sub match =
      >>=-undefined (trigger_event any x done) _ _ (trigger_event-le 0 any x done h.0)
        λ mid. trigger_events-undefined any es fs e s subs mid h.1 null sub match

  -- A matching event with a subscriber and with no callback: if the events before it have
  -- callbacks, then triggering calls through a null pointer, which is undefined behaviour.
  pub trigger_message_handlers-undefined :
      (any : Any) (c : SubscriptionEventsCache W) (w : W) (es fs : List (Subscription W))
      (e : Subscription W) (s : ℕ) (subs : List ℕ)
      → c.events ≡ es ++ e ∷ fs
      → All HasCallback es
      → e.event.callback ≡ none
      → e.subscribers ≡ s ∷ subs
      → ends_with any.type_url e.message_type ≡ true
      → trigger_message_handlers c any w ≡ undefined
  unfolding trigger_message_handlers
  trigger_message_handlers-undefined any c w es fs e s subs shape h null sub match =
      rw shape (trigger_events-undefined any es fs e s subs ([], w) h null sub match)
