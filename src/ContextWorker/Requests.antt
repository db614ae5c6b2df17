-- ===== src/ContextWorker/Requests.antt =====
-- What a datagram changes: nothing, or the subscribers.
use process_manager_service.Prelude.{
  Bool, Bytes, Option, Outcome, ap, arith, false, none, not, refl, returned, some, true, ◌-◌, ◌||◌,
  ◌∙◌, ◌≡◌,
}
use process_manager_service.SubscriptionEventsCache
use process_manager_service.ContextWorker.{
  OperationCode, WorkerException, module_request, ServiceMessage, Environment, ContextWorker,
  datagram, take, start_read, complete_read, handle_message,
}
use process_manager_service.ContextWorker.Reads.{IsReading}

abbrev pub is_module_request : OperationCode → Bool
is_module_request module_request = true
is_module_request _ = false

abbrev is_some {ℓ} : {A : Type ℓ} → Option A → Bool
is_some none = false
is_some (some a) = true

-- Nothing to do: no message, another operation, or neither a request nor a subscription.
abbrev is_ignored : Option ServiceMessage → Bool
is_ignored none = true
is_ignored (some m) =
    not (is_module_request m.operation_code)
    || not (is_some m.request || is_some m.subscription_request)

module _ {W E : Type 0} (env : Environment E) (c : ContextWorker W E) where
  restart : IsReading c → start_read (record c { reads = c.reads - 1 }) ≡ c
  unfolding start_read
  restart (er, es) = rw es (rw er refl)

  pub read_lem :
      (bytes : Bytes) (from : E) (parsed : Option ServiceMessage)
      → IsReading c
      → env.parse_from_string (take c.buffer_size bytes) ≡ parsed
      → complete_read env (datagram bytes from) c
        ≡ elim parsed [ none ↦ returned c | some m ↦ handle_message env from m c ]
  unfolding complete_read
  read_lem bytes from parsed r e =
      ap
        (λ c1.
          elim (env.parse_from_string (take c.buffer_size bytes))
            as (λ x. Outcome WorkerException (ContextWorker W E)) [
              | none ↦ returned c1
              | some m ↦ handle_message env from m c1
            ])
        (restart r)
      ∙ ap
          (λ x. elim x as (λ y. Outcome WorkerException (ContextWorker W E)) [
            | none ↦ returned c
            | some m ↦ handle_message env from m c
          ])
          e

  ignored :
      (from : E) (parsed : Option ServiceMessage)
      → is_ignored parsed ≡ true
      → ◌≡◌ {A = Outcome WorkerException (ContextWorker W E)}
          (elim parsed [ none ↦ returned c | some m ↦ handle_message env from m c ])
          (returned c)
  unfolding handle_message
  ignored from none h = refl
  ignored from (some m) h = ground arith

  -- A datagram that does not parse, or whose operation is not a module's request, or that has
  -- neither a request nor a subscription, leaves the worker as it was, and reading.
  complete_read_ignores :
      (bytes : Bytes) (from : E)
      → IsReading c
      → is_ignored (env.parse_from_string (take c.buffer_size bytes)) ≡ true
      → complete_read env (datagram bytes from) c ≡ returned c
  unfolding complete_read
  complete_read_ignores bytes from r nothing = read_lem bytes from _ r refl ∙ ignored from _ nothing

  -- A module's subscription that comes to a worker that reads, in a message without a request, adds
  -- its sender to the subscribers of the type, and changes nothing else; the worker reads on.
  pub complete_read_subscribes :
      (bytes : Bytes) (from : E) (m : ServiceMessage) (subscribed_type : Bytes)
      → IsReading c
      → env.parse_from_string (take c.buffer_size bytes) ≡ some m
      → m.operation_code ≡ module_request
      → m.request ≡ none
      → m.subscription_request ≡ some subscribed_type
      → complete_read env (datagram bytes from) c
        ≡ returned (record c {
          subscription_events =
              SubscriptionEventsCache.add_subscriber m.sender_identifier subscribed_type
                c.subscription_events;
        })
  unfolding complete_read
  complete_read_subscribes bytes from m subscribed_type r parsed is_request no_request subscribes =
      read_lem bytes from (some m) r parsed ∙ (unfold handle_message in ground arith)
