-- ===== src/ContextWorker/Forwarding.antt =====
-- How a message is forwarded to the modules that subscribed to its type.
use process_manager_service.Prelude.{
  All, List, Option, Option-cases, Outcome, [], ap, append-nil, append_assoc, inl, inr, none, refl,
  returned, some, threw, true, ℕ, ◌++◌, ◌>>=◌, ◌∙◌, ◌∷◌, ◌≡◌,
}
use process_manager_service.Event.{Any}
use process_manager_service.SubscriptionEventsCache
use process_manager_service.MongoModulesCollection.{
  Document, ModuleRecord, QueryException, get_module,
}
use process_manager_service.ContextWorker.{
  bad_address, service_request, ServiceMessage, Environment, ContextWorker, message_from,
  async_send_to, send_request, send_requests, send_to_subscribers, handle_subscriptions,
}

module _ {E : Type 0} (env : Environment E)
    (find_one : ℕ → Outcome QueryException (Option Document)) (found : ℕ → Option ModuleRecord)
    (address : ModuleRecord → E) where
  -- The datagram for one subscriber: none for a module that the database does not hold.
  abbrev forwarded_to : Option ModuleRecord → Any → List (E × ServiceMessage)
  forwarded_to none message = []
  forwarded_to (some r) message =
      (address r, message_from env.service_identifier service_request 19 (some message)) ∷ []

  abbrev pub forwarded : List (ℕ × Any) → List (E × ServiceMessage)
  forwarded [] = []
  forwarded ((subscriber, message) ∷ requests) =
      forwarded_to (found subscriber) message ++ forwarded requests

  -- The database answers for a subscriber, and if it holds the module, then its address is good.
  abbrev pub IsReachable : ℕ → Type 0
  IsReachable subscriber =
      (get_module find_one subscriber ≡ returned (found subscriber))
      × ((r : ModuleRecord)
          → found subscriber ≡ some r
          → env.endpoint r.ip_address r.port ≡ some (address r))

  module _ {W : Type 0} (at_once : env.sends_at_once ≡ true) where
    send_request_lem :
        (subscriber : ℕ) (message : Any) (c : ContextWorker W E)
        → c.socket ≡ true
        → IsReachable subscriber
        → send_request env find_one subscriber message c
          ≡ returned (record c { sent = c.sent ++ forwarded_to (found subscriber) message })
    unfolding send_request
    send_request_lem subscriber message c s (answers, reaches) =
        elim (Option-cases (found subscriber)) [
          | inl e ↦ rw (answers, send_request) (rw e (rw (append-nil c.sent) refl))
          | inr (r, e) ↦
              rw (answers, send_request)
                (rw e (rw (reaches r e) (rw (s, async_send_to) (rw at_once refl))))
        ]

    send_requests_lem :
        (requests : List (ℕ × Any)) (c : ContextWorker W E)
        → c.socket ≡ true
        → All (λ request. IsReachable request.0) requests
        → send_requests env find_one requests c
          ≡ returned (record c { sent = c.sent ++ forwarded requests })
    unfolding send_requests
    send_requests_lem [] c s reachable = rw (append-nil c.sent) refl
    send_requests_lem ((subscriber, message) ∷ requests) c s reachable =
        let first = forwarded_to (found subscriber) message in
        ap (λ h. h >>= λ c'. send_requests env find_one requests c')
          (send_request_lem subscriber message c s reachable.0)
        ∙ send_requests_lem requests (record c { sent = c.sent ++ first }) s reachable.1
        ∙ ap (λ xs. returned (record c { sent = xs }))
            (append_assoc c.sent first (forwarded requests))

    send_to_subscribers_lem :
        (requests : List (ℕ × Any)) (c : ContextWorker W E)
        → c.socket ≡ true
        → env.get_client ≡ returned find_one
        → All (λ request. IsReachable request.0) requests
        → send_to_subscribers env requests c
          ≡ returned (record c { sent = c.sent ++ forwarded requests })
    unfolding send_to_subscribers
    send_to_subscribers_lem [] c s client reachable = rw (append-nil c.sent) refl
    send_to_subscribers_lem (request ∷ requests) c s client reachable =
        rw client (send_requests_lem (request ∷ requests) c s reachable)

    -- The requests that the subscription cache returns are sent in its order, one datagram each with
    -- the message and the transaction code 19, to the address of the subscriber's record; a
    -- subscriber without a record is passed over.
    pub handle_subscriptions_lem :
        (any : Any) (c : ContextWorker W E) (requests : List (ℕ × Any)) (w : W)
        → c.socket ≡ true
        → env.get_client ≡ returned find_one
        → SubscriptionEventsCache.trigger_message_handlers c.subscription_events any c.world
          ≡ returned (requests, w)
        → All (λ request. IsReachable request.0) requests
        → handle_subscriptions env any c
          ≡ returned (record c { world = w; sent = c.sent ++ forwarded requests })
    unfolding handle_subscriptions
    handle_subscriptions_lem any c requests w s client triggered reachable =
        rw (triggered, handle_subscriptions)
          (send_to_subscribers_lem requests (record c { world = w }) s client reachable)

    send_requests_bad :
        (before after : List (ℕ × Any)) (subscriber : ℕ) (message : Any) (r : ModuleRecord)
        (c : ContextWorker W E)
        → c.socket ≡ true
        → All (λ request. IsReachable request.0) before
        → get_module find_one subscriber ≡ returned (some r)
        → env.endpoint r.ip_address r.port ≡ none
        → send_requests env find_one (before ++ (subscriber, message) ∷ after) c ≡ threw bad_address
    unfolding send_requests
    send_requests_bad [] after subscriber message r c s reachable answers bad =
        rw (answers, send_request) (rw bad refl)
    send_requests_bad ((first, m) ∷ before) after subscriber message r c s reachable answers bad =
        ap
          (λ h. h >>= λ c'. send_requests env find_one (before ++ (subscriber, message) ∷ after) c')
          (send_request_lem first m c s reachable.0)
        ∙ send_requests_bad before after subscriber message r
            (record c { sent = c.sent ++ forwarded_to (found first) m }) s reachable.1 answers bad

    send_to_subscribers_nonempty :
        (before after : List (ℕ × Any)) (request : ℕ × Any) (c : ContextWorker W E)
        → env.get_client ≡ returned find_one
        → send_to_subscribers env (before ++ request ∷ after) c
          ≡ send_requests env find_one (before ++ request ∷ after) c
    unfolding send_to_subscribers
    send_to_subscribers_nonempty [] after request c client = rw client refl
    send_to_subscribers_nonempty (first ∷ before) after request c client = rw client refl

    -- If the record of a subscriber holds an address that is no address, then the forwarding ends
    -- with an exception, whoever stands behind that subscriber; the client of the database is
    -- there, and the subscribers before it are unknown to the database or have good addresses.
    pub handle_subscriptions_bad_address :
        (any : Any) (c : ContextWorker W E) (before after : List (ℕ × Any)) (subscriber : ℕ)
        (message : Any) (r : ModuleRecord) (w : W)
        → c.socket ≡ true
        → env.get_client ≡ returned find_one
        → SubscriptionEventsCache.trigger_message_handlers c.subscription_events any c.world
          ≡ returned (before ++ (subscriber, message) ∷ after, w)
        → All (λ request. IsReachable request.0) before
        → get_module find_one subscriber ≡ returned (some r)
        → env.endpoint r.ip_address r.port ≡ none
        → handle_subscriptions env any c ≡ threw bad_address
    unfolding handle_subscriptions
    handle_subscriptions_bad_address any c before after subscriber message r w s client triggered
          reachable answers bad =
        let c' = record c { world = w } in
        rw (triggered, handle_subscriptions)
          (send_to_subscribers_nonempty before after (subscriber, message) c' client
            ∙ send_requests_bad before after subscriber message r c' s reachable answers bad)
