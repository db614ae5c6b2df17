-- ===== src/SubscriptionEventsCache/Recipients.antt =====
-- Who gets a message, and how often, without the order in which the modules stand: a bag of modules,
-- and what SubscriptionEventsCache::addSubscriber does to it.
use mathlib.Core.Quot
use mathlib.Core.Quot.{Quot, Quot-set}
use mathlib.Core.Logic.{∥∥₁_elim}
use mathlib.Core.List.{Perm, Permᴰ}
use process_manager_service.Prelude.{
  All, Bool-cases, Returns, Returns-mono, bytes_eq, inl, inr, map, returned, subst, Bytes, List, [],
  ap, arith, count, fun_ext, if◌then◌else◌, refl, suc, sym, zero, ℕ, ◌+◌, ◌==◌, ◌∙◌, ◌∷◌, ◌≡◌,
}
use process_manager_service.Event.{Any, Subscription}
use process_manager_service.SubscriptionEventsCache.{
  SubscriptionEventsCache, add_subscriber, subscribe, trigger_events, trigger_message_handlers,
}
use process_manager_service.SubscriptionEventsCache.Delivery.{
  AlwaysReplies, recipients, matching, recipients-add_subscriber, trigger_events-eq,
}

-- Every module stands in both lists equally often.
abbrev SameCounts : List ℕ → List ℕ → Type 0
SameCounts xs ys = (n : ℕ) → count n xs ≡ count n ys

abbrev pub Bag : Type 0
Bag = Quot SameCounts

abbrev copies : ℕ → ℕ → List ℕ → List ℕ
copies zero m xs = xs
copies (suc k) m xs = m ∷ copies k m xs

count-copies :
    (n k m : ℕ) (xs : List ℕ) → count n (copies k m xs) ≡ count n xs + (if m == n then k else 0)
count-copies n zero m xs = ground arith
count-copies n (suc k) m xs = ground (arith, count-copies n k m xs)

SameCounts-copies :
    (k m : ℕ) (xs ys : List ℕ) → SameCounts xs ys → SameCounts (copies k m xs) (copies k m ys)
SameCounts-copies k m xs ys h n = omega (arith, count-copies n k m xs, count-copies n k m ys, h n)

-- A module gets some more copies.
pub deposit : ℕ → ℕ → Bag → Bag
deposit k m =
    Quot.lift Quot-set (λ xs. Quot.mk (copies k m xs))
      (λ xs ys h. Quot.sound (SameCounts-copies k m xs ys h))

deposit_comm : (k m l n : ℕ) (b : Bag) → deposit k m (deposit l n b) ≡ deposit l n (deposit k m b)
unfolding deposit
deposit_comm k m l n =
    Quot.ind (λ b. Quot-set _ _)
      (λ xs. Quot.sound (λ i. omega (
        arith,
        count-copies i k m (copies l n xs),
        count-copies i l n xs,
        count-copies i l n (copies k m xs),
        count-copies i k m xs,
      )))

-- Each subscription gives its module as many copies as its type weighs.
unfoldable pub deposit_all : (Bytes → ℕ) → List (ℕ × Bytes) → Bag → Bag
deposit_all weight [] b = b
deposit_all weight ((m, type) ∷ subscriptions) b =
    deposit_all weight subscriptions (deposit (weight type) m b)

deposit_all-Perm :
    (weight : Bytes → ℕ) {xs ys : List (ℕ × Bytes)}
    → Permᴰ xs ys
    → (b : Bag) → deposit_all weight xs b ≡ deposit_all weight ys b
unfolding deposit_all
deposit_all-Perm weight Permᴰ.nil b = refl
deposit_all-Perm weight (Permᴰ.cons {a} {l₂} e perm) b =
    deposit_all-Perm weight perm (deposit (weight a.1) a.0 b)
    ∙ ap (λ s. deposit_all weight (s ∷ l₂) b) e
deposit_all-Perm weight (Permᴰ.swap {a} {b = x} {b' = y} {l} e₁ e₂) b =
    ap (deposit_all weight l) (deposit_comm (weight x.1) x.0 (weight a.1) a.0 b)
    ∙ ap (λ s. deposit_all weight (x ∷ s ∷ l) b) e₁
    ∙ ap (λ s. deposit_all weight (s ∷ y ∷ l) b) e₂
deposit_all-Perm weight (Permᴰ.trans first second) b =
    deposit_all-Perm weight first b ∙ deposit_all-Perm weight second b

-- The messages that are to be sent, by the module that each goes to.
pub by_module : List (ℕ × Any) → Bag
by_module requests = Quot.mk (map (λ r. r.0) requests)

module _ {W : Type 0} where
  -- The bag of the modules to which a message goes.
  pub view : Any → SubscriptionEventsCache W → Bag
  view any c = Quot.mk (recipients any c.events)

  -- Calls of `addSubscriber`, one after the other.
  unfoldable pub subscribe_all :
      List (ℕ × Bytes) → SubscriptionEventsCache W → SubscriptionEventsCache W
  subscribe_all [] c = c
  subscribe_all ((m, type) ∷ subscriptions) c =
      subscribe_all subscriptions (add_subscriber m type c)

  matching-add :
      (any : Any) (type : Bytes) (m : ℕ) (type' : Bytes) (es : List (Subscription W))
      → matching any type (add_subscriber m type' (record { events = es })).events
        ≡ matching any type es
  unfolding matching add_subscriber subscribe
  matching-add any type m type' [] = refl
  matching-add any type m type' (e ∷ es) = ground (arith, matching-add any type m type' es)

  view-add_subscriber :
      (any : Any) (m : ℕ) (type : Bytes) (c : SubscriptionEventsCache W)
      → view any (add_subscriber m type c) ≡ deposit (matching any type c.events) m (view any c)
  unfolding view deposit
  view-add_subscriber any m type c = Quot.sound (λ n. omega (
    arith,
    recipients-add_subscriber any n m type c,
    count-copies n (matching any type c.events) m (recipients any c.events),
  ))

  view-subscribe_all :
      (any : Any) (subscriptions : List (ℕ × Bytes)) (c : SubscriptionEventsCache W)
      → view any (subscribe_all subscriptions c)
        ≡ deposit_all (λ type. matching any type c.events) subscriptions (view any c)
  unfolding subscribe_all deposit_all
  view-subscribe_all any [] c = refl
  view-subscribe_all any ((m, type) ∷ subscriptions) c =
      view-subscribe_all any subscriptions (add_subscriber m type c)
      ∙ ap (λ weight. deposit_all weight subscriptions (view any (add_subscriber m type c)))
          (fun_ext λ type'. matching-add any type' m type c.events)
      ∙ ap (deposit_all (λ type'. matching any type' c.events) subscriptions)
          (view-add_subscriber any m type c)

  view-subscribe_all-Perm :
      (any : Any) (subscriptions others : List (ℕ × Bytes)) (c : SubscriptionEventsCache W)
      → Perm subscriptions others
      → view any (subscribe_all others c)
        ≡ deposit_all (λ type. matching any type c.events) subscriptions (view any c)
  view-subscribe_all-Perm any subscriptions others c perm =
      view-subscribe_all any others c
      ∙ sym (∥∥₁_elim perm (Quot-set _ _) (λ p. deposit_all-Perm _ p (view any c)))

  trigger_message_handlers-view :
      (any : Any) (c : SubscriptionEventsCache W) (w : W)
      → All AlwaysReplies c.events
      → Returns
          (trigger_message_handlers c any w)
          (λ (requests, w'). by_module requests ≡ view any c)
  unfolding trigger_message_handlers by_module view
  trigger_message_handlers-view any c w replies =
      Returns-mono (trigger_events any c.events ([], w)) _ _
        (trigger_events-eq any c.events ([], w) replies) λ done e. ap Quot.mk e

  add_subscriber-AlwaysReplies :
      (m : ℕ) (type : Bytes) (es : List (Subscription W))
      → All AlwaysReplies es
      → All AlwaysReplies (add_subscriber m type (record { events = es })).events
  unfolding add_subscriber
  add_subscriber-AlwaysReplies m type [] replies = tt
  add_subscriber-AlwaysReplies m type (e ∷ es) (one, replies) = (
    elim (Bool-cases (bytes_eq e.message_type type)) [ inl h ↦ rw h one | inr h ↦ rw h one ],
    add_subscriber-AlwaysReplies m type es replies,
  )

  subscribe_all-AlwaysReplies :
      (subscriptions : List (ℕ × Bytes)) (c : SubscriptionEventsCache W)
      → All AlwaysReplies c.events
      → All AlwaysReplies (subscribe_all subscriptions c).events
  unfolding subscribe_all
  subscribe_all-AlwaysReplies [] c replies = replies
  subscribe_all-AlwaysReplies ((m, type) ∷ subscriptions) c replies =
      subscribe_all-AlwaysReplies subscriptions (add_subscriber m type c)
        (add_subscriber-AlwaysReplies m type c.events replies)

  -- Every event of a cache has a callback that answers every message. A message is triggered, and
  -- modules then subscribe, one after the other, in some order. When the same message
  -- is triggered again, it gives each module as many messages as before, and for each of its
  -- subscriptions one more for each event of that type that the message matches. In which order the
  -- subscriptions have come plays no part in how many messages a module gets; the order of the
  -- messages is left out.
  pub trigger-subscribe_all :
      (any : Any) (subscriptions others : List (ℕ × Bytes)) (c : SubscriptionEventsCache W)
      (w w1 w2 : W) (requests : List (ℕ × Any))
      → Perm subscriptions others
      → All AlwaysReplies c.events
      → trigger_message_handlers c any w ≡ returned (requests, w1)
      → Returns (trigger_message_handlers (subscribe_all others c) any w2) (λ (requests', w').
        by_module requests'
        ≡ deposit_all (λ type. matching any type c.events) subscriptions (by_module requests))
  trigger-subscribe_all any subscriptions others c w w1 w2 requests perm replies before =
      let first : by_module requests ≡ view any c =
        subst (λ h. Returns h (λ done. by_module done.0 ≡ view any c)) before
          (trigger_message_handlers-view any c w replies) in
      Returns-mono (trigger_message_handlers (subscribe_all others c) any w2)
        (λ done. by_module done.0 ≡ view any (subscribe_all others c)) _
        (trigger_message_handlers-view any (subscribe_all others c) w2
          (subscribe_all-AlwaysReplies others c replies))
        λ done e.
          e
          ∙ view-subscribe_all-Perm any subscriptions others c perm
          ∙ ap (deposit_all (λ type. matching any type c.events) subscriptions) (sym first)
