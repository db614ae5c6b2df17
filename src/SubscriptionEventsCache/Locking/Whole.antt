-- ===== src/SubscriptionEventsCache/Locking/Whole.antt =====
-- Rounds under the mutex, and whole calls.
use process_manager_service.Prelude.{
  All, All-append, List, [], ap, append_assoc, map, none, refl, Returns, returned, some, subst, suc,
  sym, zero, ℕ, ◌++◌, ◌∙◌, ◌∷◌, ◌≡◌,
}
use process_manager_service.Event.{Any, Subscription}
use process_manager_service.SubscriptionEventsCache.{
  add_subscriber, add_subscription_event, trigger_event, trigger_events,
}
use process_manager_service.SubscriptionEventsCache.Delivery.{
  AlwaysReplies, recipients, trigger_events-eq,
}
use process_manager_service.SubscriptionEventsCache.Locking.{
  Reader, Lock, shared, unique, System, Step, Reach, Call, registers, completes, run_call,
  run_calls, event_at, change_at, subscribe_if, begin_trigger, trigger_round, end_trigger,
  begin_subscribe, subscribe_round, end_subscribe, register, start, later,
}

module _ {ℓ} {A : Type ℓ} where
  -- The elements that an iterator has passed.
  abbrev passed : ℕ → List A → List A
  passed zero xs = []
  passed (suc n) [] = []
  passed (suc n) (x ∷ xs) = x ∷ passed n xs

  -- The list with a change of the elements that an iterator has passed.
  abbrev changed : ℕ → (A → A) → List A → List A
  changed zero f xs = xs
  changed (suc n) f [] = []
  changed (suc n) f (x ∷ xs) = f x ∷ changed n f xs

  passed-snoc :
      (n : ℕ) (xs : List A) (x : A)
      → event_at n xs ≡ some x
      → passed (suc n) xs ≡ passed n xs ++ x ∷ []
  passed-snoc n [] x h = absurd cc
  passed-snoc zero (y ∷ xs) x h = cc
  passed-snoc (suc n) (y ∷ xs) x h = ap (◌∷◌ y) (passed-snoc n xs x h)

  passed_all : (n : ℕ) (xs : List A) → event_at n xs ≡ none → passed n xs ≡ xs
  passed_all zero [] h = refl
  passed_all (suc n) [] h = refl
  passed_all zero (x ∷ xs) h = absurd cc
  passed_all (suc n) (x ∷ xs) h = ap (◌∷◌ x) (passed_all n xs h)

  change_at-changed :
      (n : ℕ) (f : A → A) (xs : List A) → change_at n f (changed n f xs) ≡ changed (suc n) f xs
  change_at-changed zero f [] = refl
  change_at-changed (suc n) f [] = refl
  change_at-changed zero f (x ∷ xs) = refl
  change_at-changed (suc n) f (x ∷ xs) = ap (◌∷◌ (f x)) (change_at-changed n f xs)

  changed_all :
      (n : ℕ) (f : A → A) (xs : List A)
      → event_at n (changed n f xs) ≡ none
      → changed n f xs ≡ map f xs
  changed_all zero f [] h = refl
  changed_all (suc n) f [] h = refl
  changed_all zero f (x ∷ xs) h = absurd cc
  changed_all (suc n) f (x ∷ xs) h = ap (◌∷◌ (f x)) (changed_all n f xs h)

  All-split {κ} : (P : A → Type κ) (xs ys : List A) → All P (xs ++ ys) → All P xs × All P ys
  All-split P [] ys h = (tt, h)
  All-split P (x ∷ xs) ys h = let (hx, hy) = All-split P xs ys h.1 in ((h.0, hx), hy)

shared_injective : (xs ys : List Reader) → shared xs ≡ shared ys → xs ≡ ys
shared_injective xs ys h = cc

module _ {W : Type 0} where
  -- The requests that rounds on some events give, each in whatever state the callbacks find.
  data Collected (message : Any) : List (Subscription W) → List (ℕ × Any) → Type 0 where
    nothing : Collected message [] []
    round :
        {passed : List (Subscription W)} {requests : List (ℕ × Any)} (event : Subscription W)
        (w : W) (requests' : List (ℕ × Any)) (w' : W)
        → Collected message passed requests
        → trigger_event message event (requests, w) ≡ returned (requests', w')
        → Collected message (passed ++ event ∷ []) requests'

  abbrev HasCollected : List (Subscription W) → Reader → Type 0
  HasCollected events r = Collected r.message (passed r.position events) r.requests

  -- How a cache that is being used stands to the one that whole calls have given.
  abbrev Stands : List (Subscription W) → List (Subscription W) → Lock → Type 0
  Stands whole events (shared readers) = (events ≡ whole) × All (HasCollected whole) readers
  Stands whole events (unique t) =
      events ≡ changed t.position (subscribe_if t.module_identifier t.type_url) whole

  abbrev Inv : List (Subscription W) → System W → Type 0
  Inv whole s = Stands whole s.events s.lock

  run_calls-append :
      (calls more : List (Call W)) (events : List (Subscription W))
      → run_calls (calls ++ more) events ≡ run_calls more (run_calls calls events)
  unfolding run_calls
  run_calls-append [] more events = refl
  run_calls-append (call ∷ calls) more events = run_calls-append calls more (run_call call events)

  Step-Inv :
      {s t : System W} (whole : List (Subscription W)) (step : Step s t)
      → Inv whole s
      → Inv (run_calls (completes step) whole) t
  unfolding add_subscriber run_calls run_call
  Step-Inv {s} whole (begin_trigger message e) stands =
      let (same, all) = subst (Stands whole s.events) e stands in (same, (nothing, all))
  Step-Inv {s} whole (trigger_round before after r event requests w e at runs) stands =
      let (same, all) = subst (Stands whole s.events) e stands in
      let (first, rest) = All-split (HasCollected whole) before (r ∷ after) all in
      let more : Collected r.message (passed (suc r.position) whole) requests =
        subst (λ es. Collected r.message es requests)
          (sym (passed-snoc r.position whole event (ap (event_at r.position) (sym same) ∙ at)))
          (round event s.world requests w rest.0 runs) in
      (same, All-append (HasCollected whole) before _ first (more, rest.1))
  Step-Inv {s} whole (end_trigger before after r e at) stands =
      let (same, all) = subst (Stands whole s.events) e stands in
      let (first, rest) = All-split (HasCollected whole) before (r ∷ after) all in
      (same, All-append (HasCollected whole) before after first rest.1)
  Step-Inv {s} whole (begin_subscribe module_identifier type_url e) stands =
      let (same, all) = subst (Stands whole s.events) e stands in same
  Step-Inv {s} whole (subscribe_round t event e at) stands =
      let part = subst (Stands whole s.events) e stands in
      let f = subscribe_if t.module_identifier t.type_url in
      ap (change_at t.position f) part ∙ change_at-changed t.position f whole
  Step-Inv {s} whole (end_subscribe t e at) stands =
      let part = subst (Stands whole s.events) e stands in
      let f = subscribe_if t.module_identifier t.type_url in
      (part ∙ changed_all t.position f whole (ap (event_at t.position) (sym part) ∙ at), tt)
  Step-Inv {s} whole (register type event id c e added) stands =
      let (same, all) = subst (Stands whole s.events) e stands in
      let again : add_subscription_event type event (record { events = whole }) ≡ returned (id, c) =
        ap (λ es. add_subscription_event type event (record { events = es })) (sym same) ∙ added in
      let given : c.events ≡ run_call (registers type event) whole = rw (run_call, again) refl in
      subst (Stands (run_call (registers type event) whole) c.events) (sym e) (given, tt)

  Reach-Inv :
      {initial : List (Subscription W)} {w : W} {calls : List (Call W)} {s : System W}
      → Reach initial w calls s
      → Inv (run_calls calls initial) s
  Reach-Inv {initial} start = unfold run_calls in (refl, tt)
  Reach-Inv {initial} {s} (later {calls} reach step) =
      subst (λ whole. Inv whole s) (sym (run_calls-append calls (completes step) initial))
        (Step-Inv _ step (Reach-Inv reach))

  pub free_events :
      {initial : List (Subscription W)} {w : W} {calls : List (Call W)} {s : System W}
      → Reach initial w calls s
      → s.lock ≡ shared []
      → s.events ≡ run_calls calls initial
  free_events {initial} {calls} {s} reach e =
      (subst (Stands (run_calls calls initial) s.events) e (Reach-Inv reach)).0

  recipients-append :
      (message : Any) (es fs : List (Subscription W))
      → recipients message (es ++ fs) ≡ recipients message es ++ recipients message fs
  unfolding recipients
  recipients-append message [] fs = refl
  recipients-append message (e ∷ es) fs = simp (recipients-append message es fs, append_assoc)

  Collected-recipients :
      {message : Any} {passed : List (Subscription W)} {requests : List (ℕ × Any)}
      → Collected message passed requests
      → All AlwaysReplies passed
      → map (λ r. r.0) requests ≡ recipients message passed
  Collected-recipients nothing replies = unfold recipients in refl
  Collected-recipients {message} (round {passed} {requests} event w requests' w' collected runs)
        replies =
      let (replied, replies_now) = All-split AlwaysReplies passed (event ∷ []) replies in
      let one : trigger_events message (event ∷ []) (requests, w) ≡ returned (requests', w') =
        unfold trigger_events in rw runs refl in
      let sent =
        subst
          (λ h. Returns h (λ done.
            map (λ r. r.0) done.0 ≡ map (λ r. r.0) requests ++ recipients message (event ∷ [])))
          one (trigger_events-eq message (event ∷ []) (requests, w) replies_now) in
      sent
      ∙ ap (λ ns. ns ++ recipients message (event ∷ [])) (Collected-recipients collected replied)
      ∙ sym (recipients-append message passed (event ∷ []))

  -- Threads trigger, subscribe and register on a cache, and the rounds of their loops interleave in
  -- any order that the mutex allows. A thread has come to the end of a trigger, and every event of
  -- the cache has a callback that answers every message. Then the cache is what the subscriptions and
  -- registrations that the threads have completed give, whole and in that order; and the thread has
  -- collected one request for each recipient in that cache, in order.
  pub Reach-run_calls :
      (initial : List (Subscription W)) (w : W) (calls : List (Call W)) (s : System W)
      (before after : List Reader) (r : Reader)
      → Reach initial w calls s
      → s.lock ≡ shared (before ++ r ∷ after)
      → event_at r.position s.events ≡ none
      → All AlwaysReplies s.events
      → (s.events ≡ run_calls calls initial)
        × (map (λ q. q.0) r.requests ≡ recipients r.message s.events)
  Reach-run_calls initial w calls s before after r reach e at replies =
      let whole = run_calls calls initial in
      let (same, all) = subst (Stands whole s.events) e (Reach-Inv reach) in
      let (first, rest) = All-split (HasCollected whole) before (r ∷ after) all in
      let all_passed : passed r.position whole ≡ s.events =
        passed_all r.position whole (ap (event_at r.position) (sym same) ∙ at) ∙ sym same in
      (
        same,
        Collected-recipients (subst (λ es. Collected r.message es r.requests) all_passed rest.0)
            replies,
      )
