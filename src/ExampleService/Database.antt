-- ===== src/ExampleService/Database.antt =====
-- The example service where no pool of the database can be made.
use process_manager_service.Prelude.{
  Bytes, List, Bool, Option, Outcome, [], ap, arith, bytes_eq_refl, ends_with, false, none, refl,
  returned, some, true, undefined, ℕ, ◌++◌, ◌>>=◌, ◌∙◌, ◌∷◌, ◌≡◌,
}
use process_manager_service.Event.{Any, Sender}
use process_manager_service.MessageEventsCache
use process_manager_service.SubscriptionEventsCache
use process_manager_service.MongoModulesCollection.{Document, QueryException}
use process_manager_service.ContextWorker.{
  WorkerException, ServiceMessage, Environment, ContextWorker, ReadResult, datagram, take,
  module_request, complete_read, handle_message, handle_subscriptions, send_responses, run,
}
use process_manager_service.ContextWorker.Reads.{IsReading, run_step}
use process_manager_service.ContextWorker.Requests.{read_lem, complete_read_subscribes}
use process_manager_service.Configuration.{ServerConfiguration}
use process_manager_service.DbEnvironment.{get_client}
use process_manager_service.ServiceBase.{new_base}
use process_manager_service.ExampleService.{Gps, GpsCoordinates, set_coordinates}
use process_manager_service.ExampleService.Task.{
  updates, change_requests, messages, trigger_updates_lem, update_answered,
}

somebody :
    (subscribers : List ℕ) (subscriber : ℕ)
    → (first : ℕ) × (rest : List ℕ) × (subscribers ++ subscriber ∷ [] ≡ first ∷ rest)
somebody [] subscriber = (subscriber, [], refl)
somebody (s ∷ subscribers) subscriber = (s, subscribers ++ subscriber ∷ [], refl)

subscribed_lem :
    (gps : Gps) (subscribers : List ℕ) (subscriber : ℕ)
    → SubscriptionEventsCache.add_subscriber subscriber gps.update_type (updates gps subscribers)
      ≡ updates gps (subscribers ++ subscriber ∷ [])
unfolding SubscriptionEventsCache.add_subscriber
subscribed_lem gps subscribers subscriber = rw (bytes_eq_refl gps.update_type) refl

module _ {E : Type 0} (gps : Gps) (env : Environment E) where
  -- An update that comes to somebody's subscription, where there is no client.
  complete_read_without_client :
      (bytes : Bytes) (from : E) (m : ServiceMessage) (any : Any) (subscriber : ℕ)
      (subscribers : List ℕ) (c : ContextWorker GpsCoordinates E)
      → env.get_client ≡ undefined
      → IsReading c
      → c.message_events ≡ messages gps
      → c.subscription_events ≡ updates gps (subscriber ∷ subscribers)
      → env.parse_from_string (take c.buffer_size bytes) ≡ some m
      → m.operation_code ≡ module_request
      → m.request ≡ some any
      → gps.is_update any ≡ true
      → gps.is_get any ≡ false
      → ends_with any.type_url gps.update_type ≡ true
      → complete_read env (datagram bytes from) c ≡ undefined
  complete_read_without_client bytes from m any subscriber subscribers c no_client reading
        registered subscribed parsed is_request has_request is_update no_get matches =
      let sender : Sender E = record {
        sender_identifier = m.sender_identifier;
        sender_endpoint = from;
      } in
      let update = gps.unpack_update any in
      let w : GpsCoordinates =
        set_coordinates m.sender_identifier (record { first = update.x; second = update.y })
          c.world in
      let answered : MessageEventsCache.trigger_message_handlers c.message_events sender any c.world
          ≡ returned ([], w) =
        rw registered (update_answered gps sender any c.world is_update no_get) in
      let triggered : SubscriptionEventsCache.trigger_message_handlers c.subscription_events any w
          ≡ returned (change_requests gps any (subscriber ∷ subscribers), w) =
        rw subscribed (trigger_updates_lem gps any (subscriber ∷ subscribers) w matches) in
      read_lem env c bytes from (some m) reading parsed
      ∙ (unfold handle_message send_responses handle_subscriptions in
          ground (arith, answered, triggered))

  -- No pool of the database could be made, and the workers take their clients from it. To a worker
  -- that reads, and that has the callbacks of the task, a module sends a subscription of the
  -- updates, and somebody then an update, of that type, and not a get. The worker forwards it through
  -- a null pointer, which is undefined behaviour, whatever comes afterwards.
  pub run_without_database :
      {P : Type 0} (manager : Bool) (configuration : ServerConfiguration)
      (acquire : P → Outcome WorkerException (ℕ → Outcome QueryException (Option Document)))
      (subscription_bytes bytes : Bytes) (subscriber_endpoint from : E) (s m : ServiceMessage)
      (any : Any) (subscribers : List ℕ) (c : ContextWorker GpsCoordinates E)
      (results : List (ReadResult E))
      → env.get_client
        ≡ get_client acquire
            (new_base {W = GpsCoordinates} {E = E} none none manager configuration []).1
      → IsReading c
      → c.message_events ≡ messages gps
      → c.subscription_events ≡ updates gps subscribers
      → env.parse_from_string (take c.buffer_size subscription_bytes) ≡ some s
      → s.operation_code ≡ module_request
      → s.request ≡ none
      → s.subscription_request ≡ some gps.update_type
      → env.parse_from_string (take c.buffer_size bytes) ≡ some m
      → m.operation_code ≡ module_request
      → m.request ≡ some any
      → gps.is_update any ≡ true
      → gps.is_get any ≡ false
      → ends_with any.type_url gps.update_type ≡ true
      → run env (datagram subscription_bytes subscriber_endpoint ∷ datagram bytes from ∷ results) c
        ≡ undefined
  unfolding new_base get_client
  run_without_database manager configuration acquire subscription_bytes bytes subscriber_endpoint
        from s m any subscribers c results client reading registered subscribed parsed_s
        is_request_s no_request subscribes parsed is_request has_request is_update no_get matches =
      let c1 : ContextWorker GpsCoordinates E = record c {
        subscription_events =
            SubscriptionEventsCache.add_subscriber s.sender_identifier gps.update_type
              c.subscription_events;
      } in
      let (first, rest, shape) = somebody subscribers s.sender_identifier in
      run_step env (datagram subscription_bytes subscriber_endpoint) (datagram bytes from ∷ results)
        c reading.0
      ∙ ap (λ h. h >>= run env (datagram bytes from ∷ results))
          (complete_read_subscribes env c subscription_bytes subscriber_endpoint s gps.update_type
            reading parsed_s is_request_s no_request subscribes)
      ∙ run_step env (datagram bytes from) results c1 reading.0
      ∙ ap (λ h. h >>= run env results)
          (complete_read_without_client bytes from m any first rest c1 client reading registered
            (rw subscribed (subscribed_lem gps subscribers s.sender_identifier)
              ∙ ap (updates gps) shape)
            parsed is_request has_request is_update no_get matches)
