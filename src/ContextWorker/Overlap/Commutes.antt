-- ===== src/ContextWorker/Overlap/Commutes.antt =====
-- The handling of a message neither reads nor changes the number of outstanding reads.
use process_manager_service.Prelude.{
  ◌&&◌, >>=-assoc, ap, fun_ext, lift, Bool-cases, List, Option, Option-cases, Outcome, [], inl, inr,
  none, refl, returned, some, sym, threw, undefined, ℕ, ◌>>=◌, ◌∙◌, ◌∷◌, ◌≡◌,
}
use process_manager_service.Event.{Any, Sender}
use process_manager_service.MongoModulesCollection.{
  Document, ModuleRecord, QueryException, get_module,
}
use process_manager_service.ContextWorker.{
  WorkerException, query_exception, bad_address, module_request, service_request, service_response,
  other, ServiceMessage, Environment, ContextWorker, message_from, async_send_to, send_responses,
  send_request, send_requests, send_to_subscribers, handle_subscriptions, handle_request,
  handle_subscription_request, handle_module_request, handle_message,
}

module _ {W E : Type 0} (r : ℕ) where
  abbrev pub with_reads : ContextWorker W E → ContextWorker W E
  with_reads c = record c { reads = r }

  -- It is the same whether the number is set before or after the call.
  abbrev pub Commutes :
      (ContextWorker W E → Outcome WorkerException (ContextWorker W E)) → ContextWorker W E → Type 0
  Commutes f c = f (with_reads c) ≡ (f c >>= λ c'. returned (with_reads c'))

  after-Commutes {ℓ} :
      {A : Type ℓ} (c : ContextWorker W E) (h : Outcome WorkerException A)
      (f : A → ContextWorker W E → Outcome WorkerException (ContextWorker W E))
      → ((a : A) → Commutes (f a) c)
      → Commutes (λ x. h >>= λ a. f a x) c
  after-Commutes c (returned a) f k = k a
  after-Commutes c (threw x) f k = refl
  after-Commutes c undefined f k = refl

  then-Commutes :
      (c : ContextWorker W E)
      (f g : ContextWorker W E → Outcome WorkerException (ContextWorker W E))
      → Commutes f c
      → ((c' : ContextWorker W E) → Commutes g c')
      → Commutes (λ x. f x >>= g) c
  then-Commutes c f g H k =
      ap (λ h. h >>= g) H
      ∙ >>=-assoc (f c) (λ c'. returned (with_reads c')) g
      ∙ ap (λ q. f c >>= q) (fun_ext k)
      ∙ sym (>>=-assoc (f c) g λ c'. returned (with_reads c'))

  module _ (env : Environment E) where
    async_send_to-Commutes :
        (to : E) (m : ServiceMessage) (c : ContextWorker W E) → Commutes (async_send_to env to m) c
    unfolding async_send_to
    async_send_to-Commutes to m c = elim (Bool-cases (c.socket && env.sends_at_once)) [
      | inl e ↦ rw e refl
      | inr e ↦ rw e refl
    ]

    send_responses-Commutes :
        (transaction : ℕ) (to : E) (responses : List Any) (c : ContextWorker W E)
        → Commutes (send_responses env transaction to responses) c
    unfolding send_responses
    send_responses-Commutes transaction to [] c = refl
    send_responses-Commutes transaction to (response ∷ responses) c = refl

    abbrev send_found :
        Any → Option ModuleRecord → ContextWorker W E → Outcome WorkerException (ContextWorker W E)
    send_found message destination x = elim destination [
      | none ↦ returned x
      | some found ↦ elim (env.endpoint found.ip_address found.port) [
        | none ↦ threw bad_address
        | some to ↦
            async_send_to env to
              (message_from env.service_identifier service_request 19 (some message)) x
      ]
    ]

    send_found-Commutes :
        (message : Any) (destination : Option ModuleRecord) (c : ContextWorker W E)
        → Commutes (send_found message destination) c
    send_found-Commutes message none c = refl
    send_found-Commutes message (some found) c =
        elim (Option-cases (env.endpoint found.ip_address found.port)) [
          | inl e ↦ rw (send_found, e) refl
          | inr (to, e) ↦ rw (send_found, e) (async_send_to-Commutes to _ c)
        ]

    send_request-Commutes :
        (find_one : ℕ → Outcome QueryException (Option Document)) (subscriber : ℕ) (message : Any)
        (c : ContextWorker W E)
        → Commutes (send_request env find_one subscriber message) c
    unfolding send_request
    send_request-Commutes find_one subscriber message c =
        after-Commutes c (lift query_exception (get_module find_one subscriber))
          (send_found message) λ destination. send_found-Commutes message destination c

    send_requests-Commutes :
        (find_one : ℕ → Outcome QueryException (Option Document)) (requests : List (ℕ × Any))
        (c : ContextWorker W E)
        → Commutes (send_requests env find_one requests) c
    unfolding send_requests
    send_requests-Commutes find_one [] c = refl
    send_requests-Commutes find_one ((subscriber, message) ∷ requests) c =
        then-Commutes c (send_request env find_one subscriber message)
          (send_requests env find_one requests)
          (send_request-Commutes find_one subscriber message c)
          λ c'. send_requests-Commutes find_one requests c'

    send_to_subscribers-Commutes :
        (requests : List (ℕ × Any)) (c : ContextWorker W E)
        → Commutes (send_to_subscribers env requests) c
    unfolding send_to_subscribers
    send_to_subscribers-Commutes [] c = refl
    send_to_subscribers-Commutes (request ∷ requests) c =
        after-Commutes c env.get_client
          (λ find_one x. send_requests env find_one (request ∷ requests) x)
          λ find_one. send_requests-Commutes find_one (request ∷ requests) c

    handle_subscriptions-Commutes :
        (any : Any) (c : ContextWorker W E) → Commutes (handle_subscriptions env any) c
    unfolding handle_subscriptions
    handle_subscriptions-Commutes any c =
        after-Commutes c _
          (λ (requests, w) x. send_to_subscribers env requests (record x { world = w }))
          λ (requests, w). send_to_subscribers-Commutes requests (record c { world = w })

    handle_request-Commutes :
        (sender : Sender E) (transaction : ℕ) (any : Any) (c : ContextWorker W E)
        → Commutes (handle_request env sender transaction any) c
    unfolding handle_request
    handle_request-Commutes sender transaction any c =
        after-Commutes c _
          (λ (responses, w) x.
            send_responses env transaction sender.sender_endpoint responses (record x { world = w })
            >>= λ c'. handle_subscriptions env any c')
          λ (responses, w).
            then-Commutes (record c { world = w })
              (send_responses env transaction sender.sender_endpoint responses)
              (handle_subscriptions env any)
              (send_responses-Commutes transaction sender.sender_endpoint responses
                (record c { world = w }))
              λ c'. handle_subscriptions-Commutes any c'

    handle_module_request-Commutes :
        (from : E) (m : ServiceMessage) (c : ContextWorker W E)
        → Commutes (handle_module_request env from m) c
    unfolding handle_module_request
    handle_module_request-Commutes from m c = elim (Option-cases m.request) [
      | inr (any, e) ↦ rw e (handle_request-Commutes _ m.transaction_code any c)
      | inl e ↦ elim (Option-cases m.subscription_request) [
        | inr (subscribed_type, e') ↦ rw e (rw (e', handle_subscription_request) refl)
        | inl e' ↦ rw e (rw e' refl)
      ]
    ]

    pub handle_message-Commutes :
        (from : E) (m : ServiceMessage) (c : ContextWorker W E)
        → Commutes (handle_message env from m) c
    unfolding handle_message
    handle_message-Commutes from m c =
        elim m.operation_code
          as (λ code.
            Commutes
              (λ x. elim code [
                | module_request ↦ handle_module_request env from m x
                | _ ↦ returned x
              ])
              c) [
                | module_request ↦ handle_module_request-Commutes from m c
                | service_request ↦ refl
                | service_response ↦ refl
                | other n ↦ refl
              ]
