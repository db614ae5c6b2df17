-- ===== src/ContextWorker/Sent.antt =====
-- What a worker sends, when it comes to the worker of another service.
use process_manager_service.Prelude.{
  ◌&&◌, IfReturns, >>=-IfReturns, IfReturns-any, IfReturns-at, lift, Bool-cases, Bytes, List,
  Option, Option-cases, Outcome, [], All, All-append, arith, false, if◌then◌else◌, inl, inr, ltb,
  none, refl, returned, some, subst, threw, ℕ, ◌++◌, ◌-◌, ◌>>=◌, ◌∷◌, ◌≡◌, ◌∙◌,
}
use process_manager_service.Event.{Any, Sender}
use process_manager_service.MongoModulesCollection.{
  Document, ModuleRecord, QueryException, get_module,
}
use process_manager_service.ContextWorker.{
  WorkerException, query_exception, bad_address, module_request, service_request, service_response,
  other, ServiceMessage, Environment, ContextWorker, ReadResult, read_error, datagram, take,
  message_from, start_read, async_send_to, send_responses, send_request, send_requests,
  send_to_subscribers, handle_subscriptions, handle_request, handle_subscription_request,
  handle_module_request, handle_message, complete_read, run,
}
use process_manager_service.ContextWorker.Reads.{IsReading}
use process_manager_service.ContextWorker.Requests.{is_module_request, read_lem}

module _ {W E : Type 0} where
  -- No message that has been sent is a module's request.
  abbrev IsPolite : ContextWorker W E → Type 0
  IsPolite c = All (λ sent. is_module_request sent.1.operation_code ≡ false) c.sent

  abbrev Polite : Outcome WorkerException (ContextWorker W E) → Type 0
  Polite h = IfReturns h IsPolite

  after-Polite {ℓ} :
      {A : Type ℓ} (h : Outcome WorkerException A)
      (f : A → Outcome WorkerException (ContextWorker W E))
      → ((a : A) → Polite (f a))
      → Polite (h >>= f)
  after-Polite h f k = >>=-IfReturns h f (λ a. Unit) IsPolite (IfReturns-any h _ λ a. tt) λ a u. k a

  then-Polite :
      (h : Outcome WorkerException (ContextWorker W E))
      (f : ContextWorker W E → Outcome WorkerException (ContextWorker W E))
      → Polite h
      → ((c : ContextWorker W E) → IsPolite c → Polite (f c))
      → Polite (h >>= f)
  then-Polite h f H k = >>=-IfReturns h f IsPolite IsPolite H k

  module _ (env : Environment E) where
    async_send_to-Polite :
        (to : E) (m : ServiceMessage) (c : ContextWorker W E)
        → IsPolite c
        → is_module_request m.operation_code ≡ false
        → Polite (async_send_to env to m c)
    unfolding async_send_to
    async_send_to-Polite to m c p answer = elim (Bool-cases (c.socket && env.sends_at_once)) [
      | inl e ↦ rw e (All-append _ c.sent ((to, m) ∷ []) p (answer, tt))
      | inr e ↦ rw e tt
    ]

    send_responses-Polite :
        (transaction : ℕ) (to : E) (responses : List Any) (c : ContextWorker W E)
        → IsPolite c
        → Polite (send_responses env transaction to responses c)
    unfolding send_responses
    send_responses-Polite transaction to [] c p = p
    send_responses-Polite transaction to (response ∷ responses) c p = tt

    send_found-Polite :
        (message : Any) (destination : Option ModuleRecord) (c : ContextWorker W E)
        → IsPolite c
        → Polite (elim destination [
          | none ↦ returned c
          | some found ↦ elim (env.endpoint found.ip_address found.port) [
            | none ↦ threw bad_address
            | some to ↦
                async_send_to env to
                  (message_from env.service_identifier service_request 19 (some message))
                  c
          ]
        ])
    send_found-Polite message none c p = p
    send_found-Polite message (some found) c p =
        elim (Option-cases (env.endpoint found.ip_address found.port)) [
          | inl e ↦ rw e tt
          | inr (to, e) ↦ rw e (async_send_to-Polite to _ c p refl)
        ]

    send_requests-Polite :
        (find_one : ℕ → Outcome QueryException (Option Document)) (requests : List (ℕ × Any))
        (c : ContextWorker W E)
        → IsPolite c
        → Polite (send_requests env find_one requests c)
    unfolding send_requests send_request
    send_requests-Polite find_one [] c p = p
    send_requests-Polite find_one ((subscriber, message) ∷ requests) c p =
        then-Polite _ _
          (after-Polite (lift query_exception (get_module find_one subscriber)) _
            λ destination. send_found-Polite message destination c p)
          λ c' p'. send_requests-Polite find_one requests c' p'

    send_to_subscribers-Polite :
        (requests : List (ℕ × Any)) (c : ContextWorker W E)
        → IsPolite c
        → Polite (send_to_subscribers env requests c)
    unfolding send_to_subscribers
    send_to_subscribers-Polite [] c p = p
    send_to_subscribers-Polite (request ∷ requests) c p =
        after-Polite env.get_client _
          λ find_one. send_requests-Polite find_one (request ∷ requests) c p

    handle_subscriptions-Polite :
        (any : Any) (c : ContextWorker W E) → IsPolite c → Polite (handle_subscriptions env any c)
    unfolding handle_subscriptions
    handle_subscriptions-Polite any c p =
        after-Polite _ _
          λ (requests, w). send_to_subscribers-Polite requests (record c { world = w }) p

    handle_request-Polite :
        (sender : Sender E) (transaction : ℕ) (any : Any) (c : ContextWorker W E)
        → IsPolite c
        → Polite (handle_request env sender transaction any c)
    unfolding handle_request
    handle_request-Polite sender transaction any c p = after-Polite _ _ λ (responses, w).
        then-Polite _ (handle_subscriptions env any)
          (send_responses-Polite transaction sender.sender_endpoint responses
            (record c { world = w }) p)
          λ c' p'. handle_subscriptions-Polite any c' p'

    handle_module_request-Polite :
        (from : E) (m : ServiceMessage) (c : ContextWorker W E)
        → IsPolite c
        → Polite (handle_module_request env from m c)
    unfolding handle_module_request
    handle_module_request-Polite from m c p = elim (Option-cases m.request) [
      | inr (any, e) ↦ rw e (handle_request-Polite _ m.transaction_code any c p)
      | inl e ↦ elim (Option-cases m.subscription_request) [
        | inr (subscribed_type, e') ↦ rw e (rw (e', handle_subscription_request) p)
        | inl e' ↦ rw e (rw e' p)
      ]
    ]

    handle_message-Polite :
        (from : E) (m : ServiceMessage) (c : ContextWorker W E)
        → IsPolite c
        → Polite (handle_message env from m c)
    unfolding handle_message
    handle_message-Polite from m c p =
        elim m.operation_code
          as (λ code.
            Polite (elim code [
              | module_request ↦ handle_module_request env from m c
              | _ ↦ returned c
            ])) [
              | module_request ↦ handle_module_request-Polite from m c p
              | service_request ↦ p
              | service_response ↦ p
              | other n ↦ p
            ]

    handle_parsed-Polite :
        (from : E) (parsed : Option ServiceMessage) (c : ContextWorker W E)
        → IsPolite c
        → Polite (elim parsed [ none ↦ returned c | some m ↦ handle_message env from m c ])
    handle_parsed-Polite from none c p = p
    handle_parsed-Polite from (some m) c p = handle_message-Polite from m c p

    start_read-IsPolite : (c : ContextWorker W E) → IsPolite c → IsPolite (start_read c)
    unfolding start_read
    start_read-IsPolite c p = elim (Bool-cases c.socket) [ inl e ↦ rw e p | inr e ↦ rw e p ]

    complete_read-Polite :
        (result : ReadResult E) (c : ContextWorker W E)
        → IsPolite c
        → Polite (complete_read env result c)
    unfolding complete_read
    complete_read-Polite read_error c p = p
    complete_read-Polite (datagram bytes from) c p =
        handle_parsed-Polite from (env.parse_from_string (take c.buffer_size bytes))
          (start_read (record c { reads = c.reads - 1 }))
          (start_read-IsPolite (record c { reads = c.reads - 1 }) p)

    run-Polite :
        (results : List (ReadResult E)) (c : ContextWorker W E)
        → IsPolite c
        → Polite (run env results c)
    unfolding run
    run-Polite [] c p = p
    run-Polite (result ∷ results) c p =
        then-Polite (if ltb 0 c.reads then complete_read env result c else returned c) _
          (elim (Bool-cases (ltb 0 c.reads)) [
            | inl e ↦ rw e (complete_read-Polite result c p)
            | inr e ↦ rw e p
          ])
          λ c' p'. run-Polite results c' p'

All-middle :
    {A : Type 0} (P : A → Type 0) (before after : List A) (x : A)
    → All P (before ++ x ∷ after)
    → P x
All-middle P [] after x all = all.0
All-middle P (y ∷ before) after x all = All-middle P before after x all.1

module _ {V F : Type 0} (env : Environment F) where
  ignored :
      (from : F) (m : ServiceMessage) (d : ContextWorker V F)
      → is_module_request m.operation_code ≡ false
      → handle_message env from m d ≡ returned d
  unfolding handle_message
  ignored from m d answer = ground arith

  -- A worker has sent nothing yet. Whatever comes to it, and if no exception ends it, each message
  -- that it has sent then is one that the workers of services ignore: when it comes to a worker that
  -- reads, of whatever service and from whatever endpoint, nothing about that worker changes, so
  -- that it sends nothing and goes on reading.
  pub run-ignored :
      {W E : Type 0} (sending : Environment E) (results : List (ReadResult E))
      (c c' : ContextWorker W E) (before after : List (E × ServiceMessage)) (to : E)
      (m : ServiceMessage) (bytes : Bytes) (from : F) (d : ContextWorker V F)
      → c.sent ≡ []
      → run sending results c ≡ returned c'
      → c'.sent ≡ before ++ (to, m) ∷ after
      → IsReading d
      → env.parse_from_string (take d.buffer_size bytes) ≡ some m
      → complete_read env (datagram bytes from) d ≡ returned d
  run-ignored sending results c c' before after to m bytes from d nothing_sent ran sent reading
        parsed =
      let polite : IsPolite c = rw nothing_sent tt in
      let answer =
        All-middle _ before after (to, m)
          (subst (All (λ s. is_module_request s.1.operation_code ≡ false)) sent
            (IfReturns-at _ IsPolite c' (run-Polite sending results c polite) ran)) in
      read_lem env d bytes from (some m) reading parsed ∙ ignored from m d answer
