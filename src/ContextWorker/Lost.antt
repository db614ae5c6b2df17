-- ===== src/ContextWorker/Lost.antt =====
-- What comes to a worker before a handler has been registered.
use process_manager_service.Prelude.{
  List, Option, Outcome, [], ap, arith, none, refl, returned, some, true, ◌>>=◌, ◌∙◌, ◌∷◌, ◌≡◌,
}
use process_manager_service.MessageEventsCache
use process_manager_service.SubscriptionEventsCache
use process_manager_service.ContextWorker.{
  WorkerException, ServiceMessage, Environment, ContextWorker, ReadResult, read_error, datagram,
  handle_message, complete_read, run,
}
use process_manager_service.ContextWorker.Reads.{IsReading, all_datagrams, is_datagram, run_step}
use process_manager_service.ContextWorker.Requests.{read_lem}

module _ {W E : Type 0} (env : Environment E) where
  -- The worker with no handler.
  abbrev pub unregistered : ContextWorker W E → ContextWorker W E
  unregistered c = record c {
    message_events = MessageEventsCache.empty_cache;
    subscription_events = SubscriptionEventsCache.empty_cache;
  }

  module _ (c : ContextWorker W E) where
    handle_message_lost :
        (from : E) (m : ServiceMessage)
        → handle_message env from m (unregistered c) ≡ returned (unregistered c)
    unfolding handle_message MessageEventsCache.trigger_message_handlers
        SubscriptionEventsCache.trigger_message_handlers MessageEventsCache.trigger_events
        SubscriptionEventsCache.trigger_events SubscriptionEventsCache.add_subscriber
    handle_message_lost from m = ground arith

    handle_parsed_lost :
        (from : E) (parsed : Option ServiceMessage)
        → ◌≡◌ {A = Outcome WorkerException (ContextWorker W E)}
            (elim parsed [
              | none ↦ returned (unregistered c)
              | some m ↦ handle_message env from m (unregistered c)
            ])
            (returned (unregistered c))
    handle_parsed_lost from none = refl
    handle_parsed_lost from (some m) = handle_message_lost from m

    complete_read_lost :
        (result : ReadResult E)
        → IsReading c
        → is_datagram result ≡ true
        → complete_read env result (unregistered c) ≡ returned (unregistered c)
    complete_read_lost read_error reading arrived = absurd (ground arith)
    complete_read_lost (datagram bytes from) reading arrived =
        read_lem env (unregistered c) bytes from _ reading refl ∙ handle_parsed_lost from _

    -- Before a handler has been registered, every request and every subscription that comes to a
    -- worker that reads is lost: after any number of datagrams the worker is what it was, so nobody
    -- has been answered, and nobody is a subscriber later.
    pub run_lost :
        (results : List (ReadResult E))
        → IsReading c
        → all_datagrams results ≡ true
        → run env results (unregistered c) ≡ returned (unregistered c)
    unfolding run
    run_lost [] reading arrived = refl
    run_lost (result ∷ results) reading arrived =
        run_step env result results (unregistered c) reading.0
        ∙ ap (λ h. h >>= run env results) (complete_read_lost result reading (ground arith))
        ∙ run_lost results reading (ground arith)
