-- ===== src/ContextWorker/Answers.antt =====
-- A request from its datagram to the messages that it causes.
use process_manager_service.Prelude.{
  refl, All, [], threw, ◌∷◌, Bytes, List, Option, Outcome, returned, some, true, ℕ, ◌++◌, ◌∙◌, ◌≡◌,
}
use process_manager_service.Event.{Any, Sender}
use process_manager_service.MessageEventsCache
use process_manager_service.SubscriptionEventsCache
use process_manager_service.MongoModulesCollection.{Document, ModuleRecord, QueryException}
use process_manager_service.ContextWorker.{
  fatal_copy, send_responses, module_request, ServiceMessage, Environment, ContextWorker, datagram,
  take, handle_request, handle_message, complete_read,
}
use process_manager_service.ContextWorker.Reads.{IsReading}
use process_manager_service.ContextWorker.Requests.{read_lem}
use process_manager_service.ContextWorker.Forwarding.{
  IsReachable, forwarded, handle_subscriptions_lem,
}

module _ {W E : Type 0} (env : Environment E)
    (find_one : ℕ → Outcome QueryException (Option Document)) (found : ℕ → Option ModuleRecord)
    (address : ModuleRecord → E) where
  module _ (any : Any) (c : ContextWorker W E) (requests : List (ℕ × Any)) (w w' : W)
      (has_socket : c.socket ≡ true) (at_once : env.sends_at_once ≡ true)
      (client : env.get_client ≡ returned find_one)
      (forwards : SubscriptionEventsCache.trigger_message_handlers c.subscription_events any w
        ≡ returned (requests, w'))
      (reachable : All (λ request. IsReachable env find_one found address request.0) requests) where
    pub handle_request_lem :
        (sender : Sender E) (transaction : ℕ)
        → MessageEventsCache.trigger_message_handlers c.message_events sender any c.world
          ≡ returned ([], w)
        → handle_request env sender transaction any c
          ≡ returned (record c {
            world = w';
            sent = c.sent ++ forwarded env find_one found address requests;
          })
    unfolding handle_request
    handle_request_lem sender transaction answers =
        rw (answers, handle_request)
          (handle_subscriptions_lem env find_one found address at_once any (record c { world = w })
            requests w' has_socket client forwards reachable)

    -- A module's request comes to a worker that reads, and asio sends at once. If the handlers of
    -- both caches return, those of the message events without a response, the client of the database
    -- is there, and every subscriber to whom there is something to send is unknown to the database or
    -- has a good address, then each subscriber that the database holds gets its request, in the order
    -- of the cache, and the sender gets nothing. Nothing else changes but the users' state.
    pub complete_read_forwards :
        (bytes : Bytes) (from : E) (m : ServiceMessage)
        → IsReading c
        → env.parse_from_string (take c.buffer_size bytes) ≡ some m
        → m.operation_code ≡ module_request
        → m.request ≡ some any
        → MessageEventsCache.trigger_message_handlers c.message_events
            (record { sender_identifier = m.sender_identifier; sender_endpoint = from })
            any
            c.world
          ≡ returned ([], w)
        → complete_read env (datagram bytes from) c
          ≡ returned (record c {
            world = w';
            sent = c.sent ++ forwarded env find_one found address requests;
          })
    unfolding handle_message handle_request
    complete_read_forwards bytes from m reading parsed is_request has_request answers =
        read_lem env c bytes from (some m) reading parsed
        ∙ rw (is_request, handle_message)
            (rw has_request (
              handle_request_lem
                (record { sender_identifier = m.sender_identifier; sender_endpoint = from })
                m.transaction_code answers))

module _ {W E : Type 0} (env : Environment E) where
  -- A module's request comes to a worker that reads, and the handlers return a response. Then the
  -- handler of the read ends in the fatal error of the copy of the first response, whatever responses
  -- and subscribers follow.
  pub complete_read_fatal :
      (bytes : Bytes) (from : E) (m : ServiceMessage) (any : Any) (c : ContextWorker W E)
      (response : Any) (responses : List Any) (w : W)
      → IsReading c
      → env.parse_from_string (take c.buffer_size bytes) ≡ some m
      → m.operation_code ≡ module_request
      → m.request ≡ some any
      → MessageEventsCache.trigger_message_handlers c.message_events
          (record { sender_identifier = m.sender_identifier; sender_endpoint = from })
          any
          c.world
        ≡ returned (response ∷ responses, w)
      → complete_read env (datagram bytes from) c ≡ threw fatal_copy
  unfolding handle_message handle_request send_responses
  complete_read_fatal bytes from m any c response responses w reading parsed is_request has_request
        answers =
      read_lem env c bytes from (some m) reading parsed
      ∙ rw (is_request, handle_message) (rw has_request (rw (answers, handle_request) refl))
