-- ===== src/ContextWorker.antt =====
-- Source/include/ServiceContextWorker.hpp and Source/src/ServiceContextWorker.cpp: the UDP server that
-- takes requests and subscriptions. A read that has been started is counted in `reads` until asio
-- calls its handler; `sent` has the messages that were sent, in order. A message is what the
-- generated accessors return on it. `Environment` holds the generated parser, the database's client,
-- boost's endpoints, and whether asio sends a datagram before `async_send_to` returns: the bytes are
-- in a string that is gone soon after, and a later send reads memory that has been freed.
pub mod Reads
pub mod Requests
pub mod Forwarding
pub mod Answers
pub mod Lost
pub mod Moves
pub mod Overlap
pub mod Serves
pub mod Sent
pub mod Tests
use process_manager_service.Prelude.{
  lift, Bool, Bytes, List, Option, Outcome, [], false, if◌then◌else◌, ltb, none, returned, some,
  suc, threw, true, undefined, zero, ℕ, ◌&&◌, ◌++◌, ◌+◌, ◌-◌, ◌>>=◌, ◌∷◌,
}
use process_manager_service.Event.{Any, Sender, CacheException}
use process_manager_service.MessageEventsCache
use process_manager_service.SubscriptionEventsCache
use process_manager_service.MongoModulesCollection.{Document, QueryException, get_module}

pub data OperationCode : Type 0 where
  module_request service_request service_response : OperationCode
  other : ℕ → OperationCode

-- ServiceModule::Message, its header spread out; `request` is the Any of its Request.
pub record ServiceMessage : Type 0 where
  pub sender_identifier : ℕ
  pub operation_code : OperationCode
  pub transaction_code : ℕ
  pub request : Option Any
  pub subscription_request : Option Bytes

-- What ends the handler of a read with an exception.
pub data WorkerException : Type 0 where
  cache_exception : CacheException → WorkerException
  query_exception : QueryException → WorkerException
  fatal_copy bad_address no_client : WorkerException

pub record Environment (E : Type 0) : Type 0 where
  pub service_identifier : ℕ
  pub parse_from_string : Bytes → Option ServiceMessage
  pub sends_at_once : Bool
  pub get_client : Outcome WorkerException (ℕ → Outcome QueryException (Option Document))
  pub endpoint : Bytes → ℕ → Option E

pub record ContextWorker (W E : Type 0) : Type 0 where
  pub message_events : MessageEventsCache.MessageEventsCache W E
  pub subscription_events : SubscriptionEventsCache.SubscriptionEventsCache W
  pub world : W
  -- Whether the socket is not null.
  pub socket : Bool
  pub buffer_size : ℕ
  pub reads : ℕ
  pub sent : List (E × ServiceMessage)

-- How far the `try` block of the constructor came.
pub data Setup : Type 0 where
  no_socket not_bound bound : Setup

-- How a read ends: with an error, or with a datagram from an endpoint.
pub data ReadResult (E : Type 0) : Type 0 where
  read_error : ReadResult E
  datagram : Bytes → E → ReadResult E

abbrev pub take : ℕ → Bytes → Bytes
take n [] = []
take zero (b ∷ bs) = []
take (suc n) (b ∷ bs) = b ∷ take n bs

-- The header of every message that the service sends.
abbrev pub message_from : ℕ → OperationCode → ℕ → Option Any → ServiceMessage
message_from service code transaction request = record {
  sender_identifier = service;
  operation_code = code;
  transaction_code = transaction;
  request = request;
  subscription_request = none;
}

module _ {W E : Type 0} where
  -- The constructor, on the caches it is given; an exception is caught and printed.
  unfoldable pub new_worker :
      Setup
      → MessageEventsCache.MessageEventsCache W E
      → SubscriptionEventsCache.SubscriptionEventsCache W
      → W
      → ContextWorker W E
  new_worker setup messages subscriptions w = record {
    message_events = messages;
    subscription_events = subscriptions;
    world = w;
    socket = elim setup [ no_socket ↦ false | not_bound ↦ true | bound ↦ true ];
    buffer_size = elim setup [ no_socket ↦ 0 | not_bound ↦ 0 | bound ↦ 1024 ];
    reads = 0;
    sent = [];
  }

  unfoldable pub start_read : ContextWorker W E → ContextWorker W E
  start_read c = if c.socket then record c { reads = c.reads + 1 } else c

  -- `CopyFrom` of an Any into a Request: protobuf ends in a fatal error where the types differ, as
  -- they do here.
  unfoldable pub copy_response :
      Any → ContextWorker W E → Outcome WorkerException (ContextWorker W E)
  copy_response response c = threw fatal_copy

  module _ (env : Environment E) where
    -- `socket->async_send_to`
    unfoldable pub async_send_to :
        E → ServiceMessage → ContextWorker W E → Outcome WorkerException (ContextWorker W E)
    async_send_to to message c =
        if c.socket && env.sends_at_once
        then returned (record c { sent = c.sent ++ (to, message) ∷ [] })
        else undefined

    -- The loop over the responses, which does not come past the copy of the first.
    unfoldable pub send_responses :
        ℕ → E → List Any → ContextWorker W E → Outcome WorkerException (ContextWorker W E)
    unfolding async_send_to copy_response
    send_responses transaction to [] c = returned c
    send_responses transaction to (response ∷ responses) c =
        copy_response response c
        >>= (λ c1.
            async_send_to to (message_from env.service_identifier service_response transaction none)
              c1)
        >>= λ c2. send_responses transaction to responses c2

    -- The body of the loop over the subscribers' messages.
    unfoldable pub send_request :
        (ℕ → Outcome QueryException (Option Document))
        → ℕ
        → Any
        → ContextWorker W E
        → Outcome WorkerException (ContextWorker W E)
    unfolding async_send_to
    send_request find_one subscriber message c =
        lift query_exception (get_module find_one subscriber) >>= λ destination. elim destination [
          | none ↦ returned c
          | some found ↦ elim (env.endpoint found.ip_address found.port) [
            | none ↦ threw bad_address
            | some to ↦
                async_send_to to
                  (message_from env.service_identifier service_request 19 (some message)) c
          ]
        ]

    unfoldable pub send_requests :
        (ℕ → Outcome QueryException (Option Document))
        → List (ℕ × Any)
        → ContextWorker W E
        → Outcome WorkerException (ContextWorker W E)
    unfolding send_request
    send_requests find_one [] c = returned c
    send_requests find_one ((subscriber, message) ∷ requests) c =
        send_request find_one subscriber message c >>= λ c'. send_requests find_one requests c'

    -- The client is taken only where there is something to send.
    unfoldable pub send_to_subscribers :
        List (ℕ × Any) → ContextWorker W E → Outcome WorkerException (ContextWorker W E)
    unfolding send_requests
    send_to_subscribers [] c = returned c
    send_to_subscribers (request ∷ requests) c =
        env.get_client >>= λ find_one. send_requests find_one (request ∷ requests) c

    unfoldable pub handle_subscriptions :
        Any → ContextWorker W E → Outcome WorkerException (ContextWorker W E)
    unfolding send_to_subscribers
    handle_subscriptions any c = do
      (requests, w) ←
          lift cache_exception
            (SubscriptionEventsCache.trigger_message_handlers c.subscription_events any c.world)
      send_to_subscribers requests (record c { world = w })

    -- What follows `RECEIVED REQUEST`.
    unfoldable pub handle_request :
        Sender E → ℕ → Any → ContextWorker W E → Outcome WorkerException (ContextWorker W E)
    unfolding send_responses handle_subscriptions
    handle_request sender transaction any c = do
      (responses, w) ←
          lift cache_exception
            (MessageEventsCache.trigger_message_handlers c.message_events sender any c.world)
      c' ← send_responses transaction sender.sender_endpoint responses (record c { world = w })
      handle_subscriptions any c'

    unfoldable pub handle_subscription_request :
        ℕ → Bytes → ContextWorker W E → Outcome WorkerException (ContextWorker W E)
    handle_subscription_request sender subscribed_type c = returned (record c {
      subscription_events =
          SubscriptionEventsCache.add_subscriber sender subscribed_type c.subscription_events;
    })

    unfoldable pub handle_module_request :
        E → ServiceMessage → ContextWorker W E → Outcome WorkerException (ContextWorker W E)
    unfolding handle_request handle_subscription_request
    handle_module_request from m c = elim m.request [
      | some any ↦
          handle_request
            (record { sender_identifier = m.sender_identifier; sender_endpoint = from })
            m.transaction_code any c
      | none ↦ elim m.subscription_request [
        | some subscribed_type ↦ handle_subscription_request m.sender_identifier subscribed_type c
        | none ↦ returned c
      ]
    ]

    unfoldable pub handle_message :
        E → ServiceMessage → ContextWorker W E → Outcome WorkerException (ContextWorker W E)
    unfolding handle_module_request
    handle_message from m c = elim m.operation_code [
      | module_request ↦ handle_module_request from m c
      | _ ↦ returned c
    ]

    -- The handler of the read, with `handleReadError`, which is empty. A datagram that is longer
    -- than the buffer is cut.
    unfoldable pub complete_read :
        ReadResult E → ContextWorker W E → Outcome WorkerException (ContextWorker W E)
    unfolding start_read handle_message
    complete_read read_error c = returned (record c { reads = c.reads - 1 })
    complete_read (datagram bytes from) c =
        let c1 = start_read (record c { reads = c.reads - 1 }) in
        elim (env.parse_from_string (take c.buffer_size bytes)) [
          | none ↦ returned c1
          | some m ↦ handle_message from m c1
        ]

    -- The results that arrive, one after the other; without a read, a result does not reach it.
    unfoldable pub run :
        List (ReadResult E) → ContextWorker W E → Outcome WorkerException (ContextWorker W E)
    unfolding complete_read
    run [] c = returned c
    run (result ∷ results) c =
        (if ltb 0 c.reads then complete_read result c else returned c) >>= λ c'. run results c'
