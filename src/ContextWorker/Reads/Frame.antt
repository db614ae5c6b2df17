-- ===== src/ContextWorker/Reads/Frame.antt =====
-- What a handler leaves as it is: the socket, the number of outstanding reads, and the buffer.
use process_manager_service.Prelude.{
  ◌&&◌, IfReturns, >>=-IfReturns, IfReturns-any, IfReturns-mono, lift, Bool-cases, List, Option,
  Option-cases, Outcome, [], inl, inr, none, refl, returned, some, threw, ℕ, ◌>>=◌, ◌∙◌, ◌∷◌, ◌≡◌,
}
use process_manager_service.Event.{Any, Sender}
use process_manager_service.MongoModulesCollection.{Document, QueryException, get_module}
use process_manager_service.ContextWorker.{
  WorkerException, query_exception, bad_address, module_request, service_request, service_response,
  other, ServiceMessage, Environment, ContextWorker, message_from, async_send_to, send_responses,
  send_request, send_requests, send_to_subscribers, handle_subscriptions, handle_request,
  handle_subscription_request, handle_module_request, handle_message,
}

module _ {W E : Type 0} where
  abbrev Same : ContextWorker W E → ContextWorker W E → Type 0
  Same c c' = (c'.reads ≡ c.reads) × (c'.socket ≡ c.socket) × (c'.buffer_size ≡ c.buffer_size)

  abbrev Keeps : ContextWorker W E → Outcome WorkerException (ContextWorker W E) → Type 0
  Keeps c h = IfReturns h (Same c)

  >>=-Keeps {ℓ} :
      {A : Type ℓ} (c : ContextWorker W E) (h : Outcome WorkerException A)
      (f : A → Outcome WorkerException (ContextWorker W E))
      → ((a : A) → Keeps c (f a))
      → Keeps c (h >>= f)
  >>=-Keeps c h f k = >>=-IfReturns h f (λ a. Unit) (Same c) (IfReturns-any h _ λ a. tt) λ a u. k a

  then-Keeps :
      (c : ContextWorker W E) (h : Outcome WorkerException (ContextWorker W E))
      (f : ContextWorker W E → Outcome WorkerException (ContextWorker W E))
      → Keeps c h
      → ((c' : ContextWorker W E) → Keeps c' (f c'))
      → Keeps c (h >>= f)
  then-Keeps c h f H k = >>=-IfReturns h f (Same c) (Same c) H λ a (er, es, eb).
      IfReturns-mono (f a) (Same a) (Same c) (k a) λ b (fr, fs, fb). (fr ∙ er, fs ∙ es, fb ∙ eb)

  module _ (env : Environment E) where
    async_send_to-Keeps :
        (to : E) (m : ServiceMessage) (c : ContextWorker W E) → Keeps c (async_send_to env to m c)
    unfolding async_send_to
    async_send_to-Keeps to m c = elim (Bool-cases (c.socket && env.sends_at_once)) [
      | inl e ↦ rw e (refl, refl, refl)
      | inr e ↦ rw e tt
    ]

    send_responses-Keeps :
        (transaction : ℕ) (to : E) (responses : List Any) (c : ContextWorker W E)
        → Keeps c (send_responses env transaction to responses c)
    unfolding send_responses
    send_responses-Keeps transaction to [] c = (refl, refl, refl)
    send_responses-Keeps transaction to (response ∷ responses) c = tt

    send_request-Keeps :
        (find_one : ℕ → Outcome QueryException (Option Document)) (subscriber : ℕ) (message : Any)
        (c : ContextWorker W E)
        → Keeps c (send_request env find_one subscriber message c)
    unfolding send_request
    send_request-Keeps find_one subscriber message c =
        >>=-Keeps c (lift query_exception (get_module find_one subscriber)) _ λ destination.
          elim destination
            as (λ d. Keeps c (elim d [
              | none ↦ returned c
              | some found ↦ elim (env.endpoint found.ip_address found.port) [
                | none ↦ threw bad_address
                | some to ↦
                    async_send_to env to
                      (message_from env.service_identifier service_request 19 (some message)) c
              ]
            ])) [
              | none ↦ (refl, refl, refl)
              | some found ↦ elim (Option-cases (env.endpoint found.ip_address found.port)) [
                | inl e ↦ rw e tt
                | inr (to, e) ↦ rw e (async_send_to-Keeps to _ c)
              ]
            ]

    send_requests-Keeps :
        (find_one : ℕ → Outcome QueryException (Option Document)) (requests : List (ℕ × Any))
        (c : ContextWorker W E)
        → Keeps c (send_requests env find_one requests c)
    unfolding send_requests
    send_requests-Keeps find_one [] c = (refl, refl, refl)
    send_requests-Keeps find_one ((subscriber, message) ∷ requests) c =
        then-Keeps c _ _ (send_request-Keeps find_one subscriber message c)
          λ c'. send_requests-Keeps find_one requests c'

    send_to_subscribers-Keeps :
        (requests : List (ℕ × Any)) (c : ContextWorker W E)
        → Keeps c (send_to_subscribers env requests c)
    unfolding send_to_subscribers
    send_to_subscribers-Keeps [] c = (refl, refl, refl)
    send_to_subscribers-Keeps (request ∷ requests) c =
        >>=-Keeps c env.get_client _ λ find_one. send_requests-Keeps find_one (request ∷ requests) c

    handle_subscriptions-Keeps :
        (any : Any) (c : ContextWorker W E) → Keeps c (handle_subscriptions env any c)
    unfolding handle_subscriptions
    handle_subscriptions-Keeps any c =
        >>=-Keeps c _ _ λ (requests, w). send_to_subscribers-Keeps requests (record c { world = w })

    handle_request-Keeps :
        (sender : Sender E) (transaction : ℕ) (any : Any) (c : ContextWorker W E)
        → Keeps c (handle_request env sender transaction any c)
    unfolding handle_request
    handle_request-Keeps sender transaction any c = >>=-Keeps c _ _ λ (responses, w).
        then-Keeps (record c { world = w }) _ _
          (send_responses-Keeps transaction sender.sender_endpoint responses
            (record c { world = w }))
          λ c'. handle_subscriptions-Keeps any c'

    handle_module_request-Keeps :
        (from : E) (m : ServiceMessage) (c : ContextWorker W E)
        → Keeps c (handle_module_request env from m c)
    unfolding handle_module_request
    handle_module_request-Keeps from m c = elim (Option-cases m.request) [
      | inr (any, e) ↦ rw e (handle_request-Keeps _ m.transaction_code any c)
      | inl e ↦ elim (Option-cases m.subscription_request) [
        | inr (subscribed_type, e') ↦ rw e (rw (e', handle_subscription_request) (refl, refl, refl))
        | inl e' ↦ rw e (rw e' (refl, refl, refl))
      ]
    ]

    pub handle_message-Keeps :
        (from : E) (m : ServiceMessage) (c : ContextWorker W E)
        → Keeps c (handle_message env from m c)
    unfolding handle_message
    handle_message-Keeps from m c =
        elim m.operation_code
          as (λ code.
            Keeps c (elim code [
              | module_request ↦ handle_module_request env from m c
              | _ ↦ returned c
            ])) [
              | module_request ↦ handle_module_request-Keeps from m c
              | service_request ↦ (refl, refl, refl)
              | service_response ↦ (refl, refl, refl)
              | other n ↦ (refl, refl, refl)
            ]
