-- ===== src/SubscriptionEventsCache/Locking/Finishing.antt =====
-- That the threads which hold the mutex come to give it back.
use process_manager_service.Prelude.{
  All, append-nil, append_assoc, subst, sym, ◌++◌, List, Option-cases, Returns-result, [], arith,
  inl, inr, length, none, refl, some, suc, zero, ℕ, ◌+◌, ◌∷◌, ◌≡◌, ◌≤◌,
}
use process_manager_service.Event.{Subscription}
use process_manager_service.SubscriptionEventsCache.{trigger_event}
use process_manager_service.SubscriptionEventsCache.Delivery.{HasCallback, trigger_event-le}
use process_manager_service.SubscriptionEventsCache.Locking.{
  Reader, Writer, Lock, shared, unique, System, Reach, event_at, change_at, subscribe_if,
  trigger_round, end_trigger, subscribe_round, end_subscribe, later, Call, GoesOn, stay, go_on,
  completes, run_calls,
}
use process_manager_service.SubscriptionEventsCache.Locking.Whole.{free_events}

module _ {A : Type 0} where
  past_end : (n : ℕ) (xs : List A) → length xs ≤ n → event_at n xs ≡ none
  past_end n [] h = refl
  past_end zero (x ∷ xs) h = absurd (omega arith)
  past_end (suc n) (x ∷ xs) h = past_end n xs (omega arith)

  length-change_at : (n : ℕ) (f : A → A) (xs : List A) → length (change_at n f xs) ≡ length xs
  length-change_at n f [] = refl
  length-change_at zero f (x ∷ xs) = refl
  length-change_at (suc n) f (x ∷ xs) = omega (arith, length-change_at n f xs)

  All-event_at :
      (P : A → Type 0) (n : ℕ) (xs : List A) (x : A) → All P xs → event_at n xs ≡ some x → P x
  All-event_at P n [] x all e = absurd cc
  All-event_at P zero (y ∷ xs) x all e = let same : y ≡ x = cc in rw⁻¹ same all.0
  All-event_at P (suc n) (y ∷ xs) x all e = All-event_at P n xs x all.1 e

module _ {W : Type 0} where
  module _ (s : System W) where
    -- The threads have come to a free mutex by calls that had begun.
    abbrev Released : Type 0
    Released = (calls : List (Call W)) × (t : System W) × GoesOn s calls t × (t.lock ≡ shared [])

    -- The first reader comes to its end, in as many rounds as there are events before it.
    reader_ends :
        (rounds : ℕ) {calls : List (Call W)} {t : System W} (r : Reader) (readers : List Reader)
        → GoesOn s calls t
        → t.lock ≡ shared (r ∷ readers)
        → All HasCallback t.events
        → length t.events ≤ r.position + rounds
        → (more : List (Call W)) × (u : System W) × GoesOn s more u
          × (u.lock ≡ shared readers)
          × (u.events ≡ t.events)
    reader_ends zero {t = t} r readers goes e has near = (
      _,
      _,
      go_on goes (end_trigger [] readers r e (past_end r.position t.events (omega arith))) refl,
      refl,
      refl,
    )
    reader_ends (suc rounds) {t = t} r readers goes e has near =
        elim (Option-cases (event_at r.position t.events)) [
          | inl at_end ↦ (_, _, go_on goes (end_trigger [] readers r e at_end) refl, refl, refl)
          | inr (event, at_event) ↦
              let ((requests, w'), runs) =
                Returns-result (trigger_event r.message event (r.requests, t.world)) _ (
                  trigger_event-le 0 r.message event (r.requests, t.world)
                    (All-event_at HasCallback r.position t.events event has at_event)) in
              reader_ends rounds (record r { position = suc r.position; requests = requests })
                readers
                (go_on goes (trigger_round [] readers r event requests w' e at_event runs) refl)
                refl has (omega arith)
        ]

    writer_ends :
        (rounds : ℕ) {calls : List (Call W)} {t : System W} (writer : Writer)
        → GoesOn s calls t
        → t.lock ≡ unique writer
        → length t.events ≤ writer.position + rounds
        → Released
    writer_ends zero {t = t} writer goes e near = (
      _,
      _,
      go_on goes (end_subscribe writer e (past_end writer.position t.events (omega arith))) refl,
      refl,
    )
    writer_ends (suc rounds) {t = t} writer goes e near =
        elim (Option-cases (event_at writer.position t.events)) [
          | inl at_end ↦ (_, _, go_on goes (end_subscribe writer e at_end) refl, refl)
          | inr (event, at_event) ↦
              writer_ends rounds (record writer { position = suc writer.position })
                (go_on goes (subscribe_round writer event e at_event) refl) refl
                (omega (
                  arith,
                  length-change_at writer.position
                      (subscribe_if writer.module_identifier writer.type_url) t.events,
                ))
        ]

    readers_end :
        (readers : List Reader) {calls : List (Call W)} {t : System W}
        → GoesOn s calls t
        → t.lock ≡ shared readers
        → All HasCallback t.events
        → Released
    readers_end [] {calls = calls} {t = t} goes e has = (calls, t, goes, e)
    readers_end (r ∷ readers) {t = t} goes e has =
        let (more, u, goes', e', same) =
          reader_ends (length t.events) r readers goes e has (omega arith) in
        readers_end readers goes' e' (rw same has)

    released : (lock : Lock) → s.lock ≡ lock → All HasCallback s.events → Released
    released (shared readers) e has = readers_end readers stay e has
    released (unique writer) e has = writer_ends (length s.events) writer stay e (omega arith)

  Reach-GoesOn :
      {events : List (Subscription W)} {w : W} {calls : List (Call W)} {s : System W}
      {more : List (Call W)} {t : System W}
      → Reach events w calls s
      → GoesOn s more t
      → Reach events w (calls ++ more) t
  Reach-GoesOn {events} {w} {calls} {s} reach stay =
      subst (λ cs. Reach events w cs s) (sym (append-nil calls)) reach
  Reach-GoesOn {events} {w} {calls} {t} reach (go_on {calls = more} goes step in_a_call) =
      subst (λ cs. Reach events w cs t) (append_assoc calls more (completes step))
        (later (Reach-GoesOn reach goes) step)

  -- Threads trigger, subscribe and register on a cache, and the rounds of their loops interleave.
  -- However far they are, if every event has a callback, then the threads that hold the mutex can go
  -- on from there, no thread beginning a call, until all have come to their ends: the mutex is free
  -- then, and the cache is what the subscriptions and registrations that were completed before and
  -- those that have been completed since give, whole and in order.
  pub Reach-released :
      (events : List (Subscription W)) (w : W) (calls : List (Call W)) (s : System W)
      → Reach events w calls s
      → All HasCallback s.events
      → (more : List (Call W)) × (t : System W) × GoesOn s more t
        × (t.lock ≡ shared [])
        × (t.events ≡ run_calls (calls ++ more) events)
  Reach-released events w calls s reach has =
      let (more, t, goes, free) = released s s.lock refl has in
      (more, t, goes, free, free_events (Reach-GoesOn reach goes) free)
