-- ===== src/ContextWorker/Serves.antt =====
-- That a worker keeps serving when nothing around it fails.
use process_manager_service.Prelude.{
  ap, ◌∙◌, >>=-Returns, Returns-result, All, Bool-cases, Bytes, List, Option, Option-cases, Outcome,
  Returns, [], arith, bytes_eq, false, inl, inr, map, none, refl, returned, some, true, ℕ, ◌∷◌, ◌≡◌,
  ◌⊎◌,
}
use process_manager_service.Event.{Any, Sender, Subscription}
use process_manager_service.MessageEventsCache
use process_manager_service.MessageEventsCache.Trigger.{answers, trigger_message_handlers_lem}
use process_manager_service.SubscriptionEventsCache
use process_manager_service.SubscriptionEventsCache.Delivery.{
  HasCallback, trigger_message_handlers-le,
}
use process_manager_service.MongoModulesCollection.{Document, ModuleRecord, QueryException}
use process_manager_service.ContextWorker.{
  WorkerException, ServiceMessage, Environment, ContextWorker, ReadResult, read_error, datagram,
  OperationCode, module_request, service_request, service_response, other, handle_module_request,
  handle_request, handle_message, complete_read, run,
}
use process_manager_service.ContextWorker.Reads.{IsReading, all_datagrams, is_datagram, run_step}
use process_manager_service.ContextWorker.Requests.{is_module_request, read_lem}
use process_manager_service.ContextWorker.Forwarding.{IsReachable}
use process_manager_service.ContextWorker.Answers.{handle_request_lem}

All-every : {A : Type 0} (P : A → Type 0) (xs : List A) → ((a : A) → P a) → All P xs
All-every P [] every = tt
All-every P (x ∷ xs) every = (every x, All-every P xs every)

operation_cases :
    (code : OperationCode) → (code ≡ module_request) ⊎ (is_module_request code ≡ false)
operation_cases module_request = inl refl
operation_cases service_request = inr refl
operation_cases service_response = inr refl
operation_cases (other n) = inr refl

module _ {W : Type 0} where
  add_subscriber-HasCallback :
      (n : ℕ) (type : Bytes) (events : List (Subscription W))
      → All HasCallback events
      → All HasCallback
          (SubscriptionEventsCache.add_subscriber n type (record { events = events })).events
  unfolding SubscriptionEventsCache.add_subscriber
  add_subscriber-HasCallback n type [] has = tt
  add_subscriber-HasCallback n type (event ∷ events) (one, has) = (
    elim (Bool-cases (bytes_eq event.message_type type)) [ inl e ↦ rw e one | inr e ↦ rw e one ],
    add_subscriber-HasCallback n type events has,
  )

module _ {W E : Type 0} where
  -- Nothing that a worker asks for fails: the database answers with good addresses, asio sends at
  -- once, and the handlers of the message events give no response.
  abbrev pub IsHealthy :
      (env : Environment E)
      → (ℕ → Outcome QueryException (Option Document))
      → (ℕ → Option ModuleRecord)
      → (ModuleRecord → E)
      → MessageEventsCache.MessageEventsCache W E
      → Type 0
  IsHealthy env find_one found address messages =
      (env.get_client ≡ returned find_one)
      × ((n : ℕ) → IsReachable env find_one found address n)
      × ((sender : Sender E) (any : Any) (w : W)
          → (answers sender any (map (λ e. e.1) messages.events) w).0 ≡ [])
      × (env.sends_at_once ≡ true)

  -- The worker reads, its subscription events have callbacks, and its message events are the given
  -- ones.
  abbrev pub Serving : MessageEventsCache.MessageEventsCache W E → ContextWorker W E → Type 0
  Serving messages c =
      IsReading c × All HasCallback c.subscription_events.events × (c.message_events ≡ messages)

  module _ (env : Environment E) (find_one : ℕ → Outcome QueryException (Option Document))
      (found : ℕ → Option ModuleRecord) (address : ModuleRecord → E)
      (messages : MessageEventsCache.MessageEventsCache W E)
      (healthy : IsHealthy env find_one found address messages) where
    handle_request-Serving :
        (sender : Sender E) (transaction : ℕ) (any : Any) (c : ContextWorker W E)
        → Serving messages c
        → Returns (handle_request env sender transaction any c) (Serving messages)
    handle_request-Serving sender transaction any c (reading, has, same) =
        let events = map (λ e. e.1) messages.events in
        let w : W = (answers sender any events c.world).1 in
        let answered : MessageEventsCache.trigger_message_handlers c.message_events sender any
              c.world
            ≡ returned ([], w) =
          rw same (
            trigger_message_handlers_lem sender any messages c.world
            ∙ ap (λ xs. returned (xs, w)) (healthy.2 sender any c.world)) in
        let ((requests, w'), triggered) =
          Returns-result _ _ (trigger_message_handlers-le 0 any c.subscription_events w has) in
        rw
          (handle_request_lem env find_one found address any c requests w w' reading.1 healthy.3
            healthy.0 triggered (All-every _ requests (λ request. healthy.1 request.0)) sender
            transaction answered)
          (reading, has, same)

    handle_module_request-Serving :
        (from : E) (m : ServiceMessage) (c : ContextWorker W E)
        → Serving messages c
        → Returns (handle_module_request env from m c) (Serving messages)
    unfolding handle_module_request
    handle_module_request-Serving from m c (reading, has, same) = elim (Option-cases m.request) [
      | inl no_request ↦ elim (Option-cases m.subscription_request) [
        | inl nothing ↦ rw (no_request, handle_module_request) (rw nothing (reading, has, same))
        | inr (type, subscribes) ↦
            rw (no_request, handle_module_request)
              (rw subscribes (
                reading,
                add_subscriber-HasCallback m.sender_identifier type c.subscription_events.events
                    has,
                same,
              ))
      ]
      | inr (any, requests) ↦
          rw (requests, handle_module_request)
            (handle_request-Serving
              (record { sender_identifier = m.sender_identifier; sender_endpoint = from })
              m.transaction_code any c (reading, has, same))
    ]

    handle_message-Serving :
        (from : E) (m : ServiceMessage) (c : ContextWorker W E)
        → Serving messages c
        → Returns (handle_message env from m c) (Serving messages)
    unfolding handle_message
    handle_message-Serving from m c serving = elim (operation_cases m.operation_code) [
      | inl is_request ↦
          rw (is_request, handle_message) (handle_module_request-Serving from m c serving)
      | inr other_kind ↦
          let nothing : handle_message env from m c ≡ returned c = ground arith in
          rw nothing serving
    ]

    pub handle_parsed-Serving :
        (from : E) (parsed : Option ServiceMessage) (c : ContextWorker W E)
        → Serving messages c
        → Returns
            (elim parsed as (λ x. Outcome WorkerException (ContextWorker W E)) [
              | none ↦ returned c
              | some m ↦ handle_message env from m c
            ])
            (Serving messages)
    handle_parsed-Serving from none c serving = serving
    handle_parsed-Serving from (some m) c serving = handle_message-Serving from m c serving

    complete_read-Serving :
        (result : ReadResult E) (c : ContextWorker W E)
        → Serving messages c
        → is_datagram result ≡ true
        → Returns (complete_read env result c) (Serving messages)
    complete_read-Serving read_error c serving arrived = absurd (ground arith)
    complete_read-Serving (datagram bytes from) c serving arrived =
        rw (read_lem env c bytes from _ serving.0 refl) (handle_parsed-Serving from _ c serving)

    -- A worker that reads, and whose subscription events have callbacks, takes any number of
    -- datagrams, whatever they are, if nothing around it fails: the client of the database is
    -- there, every module is unknown to the database or has a good address, the handlers of the
    -- message events give no response, whatever they are asked, and asio sends each datagram before
    -- `async_send_to` returns. No exception and no undefined behaviour ends the worker; afterwards
    -- it reads, its subscription events have callbacks, and its message events are the same.
    pub run-Serving :
        (results : List (ReadResult E)) (c : ContextWorker W E)
        → Serving messages c
        → all_datagrams results ≡ true
        → Returns (run env results c) (Serving messages)
    unfolding run
    run-Serving [] c serving arrived = serving
    run-Serving (result ∷ results) c serving arrived =
        rw (run_step env result results c serving.0.0) (
          >>=-Returns (complete_read env result c) _ (Serving messages) (Serving messages)
            (complete_read-Serving result c serving (ground arith))
            λ c' serving'. run-Serving results c' serving' (ground arith))
