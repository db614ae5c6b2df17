-- ===== src/SubscriptionEventsCache/Locking.antt =====
-- The cache under its std::shared_mutex, with the loops of `triggerMessageHandlers` and `addSubscriber`
-- cut into their rounds, so that the rounds of several threads interleave. The mutex is what it
-- guarantees: any number of threads hold it shared, or one thread holds it alone. A round of a
-- trigger runs the callbacks of one event; `position` is where the loop's iterator stands.
pub mod Whole
pub mod Finishing
pub mod Tests
use process_manager_service.Prelude.{
  Bool, Bytes, List, Option, [], bytes_eq, false, if◌then◌else◌, none, returned, some, suc, threw,
  true, undefined, zero, ℕ, ◌++◌, ◌∷◌, ◌≡◌,
}
use process_manager_service.Event.{Any, SubscribeEvent, Subscription}
use process_manager_service.SubscriptionEventsCache.{
  SubscriptionEventsCache, add_subscriber, add_subscription_event, subscribe, trigger_event,
}

-- A thread in `triggerMessageHandlers`.
pub record Reader : Type 0 where
  pub message : Any
  pub position : ℕ
  pub requests : List (ℕ × Any)

-- A thread in `addSubscriber`.
pub record Writer : Type 0 where
  pub module_identifier : ℕ
  pub type_url : Bytes
  pub position : ℕ

pub data Lock : Type 0 where
  shared : List Reader → Lock
  unique : Writer → Lock

pub record System (W : Type 0) : Type 0 where
  pub events : List (Subscription W)
  pub world : W
  pub lock : Lock

-- A call that changes the cache.
pub data Call (W : Type 0) : Type 0 where
  subscribes : ℕ → Bytes → Call W
  registers : Bytes → Option (SubscribeEvent W) → Call W

-- The event at which an iterator stands, and none at the end.
abbrev pub event_at {ℓ} : {A : Type ℓ} → ℕ → List A → Option A
event_at n [] = none
event_at zero (x ∷ xs) = some x
event_at (suc n) (x ∷ xs) = event_at n xs

-- A change of the event at which an iterator stands.
abbrev pub change_at {ℓ} : {A : Type ℓ} → ℕ → (A → A) → List A → List A
change_at n f [] = []
change_at zero f (x ∷ xs) = f x ∷ xs
change_at (suc n) f (x ∷ xs) = x ∷ change_at n f xs

module _ {W : Type 0} where
  -- The body of the loop of `addSubscriber`.
  abbrev pub subscribe_if : ℕ → Bytes → Subscription W → Subscription W
  subscribe_if module_identifier type_url event =
      if bytes_eq event.message_type type_url then subscribe module_identifier event else event

  -- What one thread does next: it takes the mutex, runs a round of its loop, or returns and gives the
  -- mutex back. `addSubscriptionEvent` has no loop that changes the cache, and is one step.
  pub data Step (s : System W) : System W → Type 0 where
    begin_trigger :
        {readers : List Reader} (message : Any)
        → s.lock ≡ shared readers
        → Step s (record s {
          lock = shared (record { message = message; position = 0; requests = [] } ∷ readers);
        })
    trigger_round :
        (before after : List Reader) (r : Reader) (event : Subscription W)
        (requests : List (ℕ × Any)) (w : W)
        → s.lock ≡ shared (before ++ r ∷ after)
        → event_at r.position s.events ≡ some event
        → trigger_event r.message event (r.requests, s.world) ≡ returned (requests, w)
        → Step s (record s {
          world = w;
          lock =
              shared
                (before ++ record r { position = suc r.position; requests = requests } ∷ after);
        })
    end_trigger :
        (before after : List Reader) (r : Reader)
        → s.lock ≡ shared (before ++ r ∷ after)
        → event_at r.position s.events ≡ none
        → Step s (record s { lock = shared (before ++ after) })
    begin_subscribe :
        (module_identifier : ℕ) (type_url : Bytes)
        → s.lock ≡ shared []
        → Step s (record s {
          lock =
              unique (record {
                module_identifier = module_identifier;
                type_url = type_url;
                position = 0;
              });
        })
    subscribe_round :
        (t : Writer) (event : Subscription W)
        → s.lock ≡ unique t
        → event_at t.position s.events ≡ some event
        → Step s (record s {
          events = change_at t.position (subscribe_if t.module_identifier t.type_url) s.events;
          lock = unique (record t { position = suc t.position });
        })
    end_subscribe :
        (t : Writer)
        → s.lock ≡ unique t
        → event_at t.position s.events ≡ none
        → Step s (record s { lock = shared [] })
    register :
        (type : Bytes) (event : Option (SubscribeEvent W)) (id : ℕ) (c : SubscriptionEventsCache W)
        → s.lock ≡ shared []
        → add_subscription_event type event (record { events = s.events }) ≡ returned (id, c)
        → Step s (record s { events = c.events })

  -- What a step completes: a subscription when its thread comes to the end, a registration at once.
  abbrev pub completes : {s t : System W} → Step s t → List (Call W)
  completes (begin_trigger message e) = []
  completes (trigger_round before after r event requests w e at runs) = []
  completes (end_trigger before after r e at) = []
  completes (begin_subscribe module_identifier type_url e) = []
  completes (subscribe_round t event e at) = []
  completes (end_subscribe t e at) = subscribes t.module_identifier t.type_url ∷ []
  completes (register type event id c e added) = registers type event ∷ []

  -- Whether a step begins a call, or is a whole one.
  abbrev pub begins : {s t : System W} → Step s t → Bool
  begins (begin_trigger message e) = true
  begins (trigger_round before after r event requests w e at runs) = false
  begins (end_trigger before after r e at) = false
  begins (begin_subscribe module_identifier type_url e) = true
  begins (subscribe_round t event e at) = false
  begins (end_subscribe t e at) = false
  begins (register type event id c e added) = true

  -- A cache that no thread uses.
  abbrev pub unused : List (Subscription W) → W → System W
  unused events w = record { events = events; world = w; lock = shared [] }

  -- From an unused cache, with the calls that the threads have completed, in order.
  pub data Reach (events : List (Subscription W)) (w : W) : List (Call W) → System W → Type 0 where
    start : Reach events w [] (unused events w)
    later :
        {calls : List (Call W)} {s t : System W}
        → Reach events w calls s
        → (step : Step s t) → Reach events w (calls ++ completes step) t

  -- The threads that are in a call go on, and none begins one.
  pub data GoesOn (s : System W) : List (Call W) → System W → Type 0 where
    stay : GoesOn s [] s
    go_on :
        {calls : List (Call W)} {t u : System W}
        → GoesOn s calls t
        → (step : Step t u) → begins step ≡ false
        → GoesOn s (calls ++ completes step) u

  -- A whole call, by the methods of the cache; a registration that throws changes nothing.
  unfoldable pub run_call : Call W → List (Subscription W) → List (Subscription W)
  unfolding add_subscriber add_subscription_event
  run_call (subscribes module_identifier type_url) events =
      (add_subscriber module_identifier type_url (record { events = events })).events
  run_call (registers type event) events =
      elim (add_subscription_event type event (record { events = events })) [
        | returned done ↦ done.1.events
        | threw x ↦ events
        | undefined ↦ events
      ]

  unfoldable pub run_calls : List (Call W) → List (Subscription W) → List (Subscription W)
  unfolding run_call
  run_calls [] events = events
  run_calls (call ∷ calls) events = run_calls calls (run_call call events)
