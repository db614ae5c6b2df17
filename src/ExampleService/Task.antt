-- ===== src/ExampleService/Task.antt =====
-- The service after its task has run: what its workers do with requests.
use process_manager_service.Prelude.{
  All, Bytes, List, Option, Outcome, [], append-nil, append_assoc, ends_with, false, map, refl,
  returned, some, true, ℕ, ◌++◌, ◌∙◌, ◌∷◌, ◌≡◌,
}
use process_manager_service.Event.{Any, Sender, subscription_handle}
use process_manager_service.Event.Ids.{new_event_id}
use process_manager_service.MessageEventsCache
use process_manager_service.SubscriptionEventsCache
use process_manager_service.MongoModulesCollection.{Document, ModuleRecord, QueryException}
use process_manager_service.ContextWorker.{
  ServiceMessage, Environment, ContextWorker, datagram, take, module_request, complete_read,
}
use process_manager_service.ContextWorker.Reads.{IsReading}
use process_manager_service.ContextWorker.Forwarding.{IsReachable, forwarded}
use process_manager_service.ContextWorker.Answers.{complete_read_forwards}
use process_manager_service.ServiceBase.{run_forever}
use process_manager_service.ExampleService.{
  Gps, GpsCoordinates, set_coordinates, update_event, get_event, subscribe_update_event, task,
}

module _ (gps : Gps) where
  -- The subscription of the coordinates' updates.
  abbrev pub updates : List ℕ → SubscriptionEventsCache.SubscriptionEventsCache GpsCoordinates
  updates subscribers = record {
    events =
        record {
          id = 0;
          message_type = gps.update_type;
          subscribers = subscribers;
          event = subscribe_update_event gps;
        }
        ∷ [];
  }

  -- The requests for the subscribers.
  abbrev pub change_requests : Any → List ℕ → List (ℕ × Any)
  change_requests any subscribers =
      map (λ s. (s, gps.pack_subscribe (gps.unpack_update any))) subscribers

  trigger_updates :
      (any : Any) (subscribers : List ℕ) (requests : List (ℕ × Any)) (w : GpsCoordinates)
      → SubscriptionEventsCache.trigger_subscribers any
          (subscribe_update_event gps)
          subscribers
          (requests, w)
        ≡ returned (requests ++ change_requests any subscribers, w)
  unfolding SubscriptionEventsCache.trigger_subscribers subscription_handle
  trigger_updates any [] requests w = rw (append-nil requests) refl
  trigger_updates any (s ∷ subscribers) requests w =
      trigger_updates any subscribers
        (requests ++ (s, gps.pack_subscribe (gps.unpack_update any)) ∷ []) w
      ∙ rw
          (append_assoc requests ((s, gps.pack_subscribe (gps.unpack_update any)) ∷ [])
            (change_requests any subscribers))
          refl

  pub trigger_updates_lem :
      (any : Any) (subscribers : List ℕ) (w : GpsCoordinates)
      → ends_with any.type_url gps.update_type ≡ true
      → SubscriptionEventsCache.trigger_message_handlers (updates subscribers) any w
        ≡ returned (change_requests any subscribers, w)
  unfolding SubscriptionEventsCache.trigger_message_handlers SubscriptionEventsCache.trigger_events
      SubscriptionEventsCache.trigger_event
  trigger_updates_lem any subscribers w matches =
      rw matches (rw (trigger_updates any subscribers [] w) refl)

module _ {E : Type 0} (gps : Gps) where
  abbrev pub messages : MessageEventsCache.MessageEventsCache GpsCoordinates E
  messages = record { events = (0, update_event gps) ∷ (1, get_event gps) ∷ [] }

  -- On an event manager that has been initialized, and with nothing registered, the task registers the
  -- update, the get and the subscription, under the ids 0, 1 and 0, with no subscriber, and asks to
  -- be run forever.
  pub task_lem :
      task gps (record {
        manager = true;
        message_events_cache = MessageEventsCache.empty_cache;
        subscription_events_cache = SubscriptionEventsCache.empty_cache;
      })
      ≡ returned (
        run_forever,
        record {
          manager = true;
          message_events_cache = messages;
          subscription_events_cache = updates gps [];
        },
      )
  unfolding task MessageEventsCache.add_message_event SubscriptionEventsCache.add_subscription_event
      MessageEventsCache.get_new_event_id SubscriptionEventsCache.get_new_event_id new_event_id
  task_lem = refl

  pub update_answered :
      (sender : Sender E) (any : Any) (w : GpsCoordinates)
      → gps.is_update any ≡ true
      → gps.is_get any ≡ false
      → let update = gps.unpack_update any in
        MessageEventsCache.trigger_message_handlers messages sender any w
        ≡ returned (
          [],
          set_coordinates sender.sender_identifier
              (record { first = update.x; second = update.y })
              w,
        )
  unfolding MessageEventsCache.trigger_message_handlers MessageEventsCache.trigger_events
      MessageEventsCache.trigger_event
  update_answered sender any w is_update no_get = rw is_update (rw no_get refl)

  module _ (env : Environment E) (find_one : ℕ → Outcome QueryException (Option Document))
      (found : ℕ → Option ModuleRecord) (address : ModuleRecord → E)
      (client : env.get_client ≡ returned find_one) (at_once : env.sends_at_once ≡ true) where
    -- To a worker that reads, and that has the callbacks of the task and any subscribers, a module
    -- sends a request that is an update, of the subscribed type, and not a get. If the client of
    -- the database is there, asio sends a datagram before `async_send_to` returns, and every subscriber is unknown to the database or has a good address,
    -- then the coordinates of the message are stored under the identifier of the sender, nothing is
    -- answered, and the update is forwarded to each subscriber that the database holds.
    pub complete_read-set_coordinates :
        (bytes : Bytes) (from : E) (m : ServiceMessage) (any : Any) (subscribers : List ℕ)
        (c : ContextWorker GpsCoordinates E)
        → IsReading c
        → c.message_events ≡ messages
        → c.subscription_events ≡ updates gps subscribers
        → env.parse_from_string (take c.buffer_size bytes) ≡ some m
        → m.operation_code ≡ module_request
        → m.request ≡ some any
        → gps.is_update any ≡ true
        → gps.is_get any ≡ false
        → ends_with any.type_url gps.update_type ≡ true
        → All
            (λ request. IsReachable env find_one found address request.0)
            (change_requests gps any subscribers)
        → let update = gps.unpack_update any in
          complete_read env (datagram bytes from) c
          ≡ returned (record c {
            world =
                set_coordinates m.sender_identifier
                  (record { first = update.x; second = update.y })
                  c.world;
            sent =
                c.sent
                ++ forwarded env find_one found address (change_requests gps any subscribers);
          })
    complete_read-set_coordinates bytes from m any subscribers c reading registered subscribed
          parsed is_request has_request is_update no_get matches reachable =
        let update = gps.unpack_update any in
        let w : GpsCoordinates =
          set_coordinates m.sender_identifier (record { first = update.x; second = update.y })
            c.world in
        complete_read_forwards env find_one found address any c
          (change_requests gps any subscribers) w w reading.1 at_once client
          (rw subscribed (trigger_updates_lem gps any subscribers w matches)) reachable bytes from m
          reading parsed is_request has_request
          (rw registered (
            update_answered
              (record { sender_identifier = m.sender_identifier; sender_endpoint = from }) any
              c.world is_update no_get))
