-- ===== src/ExampleService/Startup.antt =====
-- The example service from `main` to its worker.
use process_manager_service.Prelude.{
  false, Returns, Returns-mono, [], ap, length, Option, refl, returned, some, true, ◌<◌, ◌∙◌, ◌∷◌,
  ◌≡◌,
}
use process_manager_service.EventManager.{EventManager}
use process_manager_service.EventManager
use process_manager_service.Connection.{Message, accepted}
use process_manager_service.WatchdogResponseHandlers.{ConnectResponseData}
use process_manager_service.WatchdogResponseHandlers.Connect.{accepts}
use process_manager_service.WatchdogConnection.{Operation, connect_response, connect_message}
use process_manager_service.WatchdogConnection.Runs.{write_completes, message_arrives}
use process_manager_service.Configuration.{ServerConfiguration, read_configuration}
use process_manager_service.ContextWorker.{ContextWorker, bound, new_worker, start_read}
use process_manager_service.ContextWorker.Reads.{IsReading}
use process_manager_service.ServiceBase.{
  Base, Settings, StartException, End, serves, sockets_made, new_base, new_watchdog, main,
}
use process_manager_service.ServiceBase.Connects.{main_connects}
use process_manager_service.ExampleService.{Gps, GpsCoordinates, task}
use process_manager_service.ExampleService.Task.{messages, updates, task_lem}

module _ {E : Type 0} (gps : Gps) where
  -- Nothing has been started or registered.
  abbrev pub fresh :
      {P : Type 0} → Option P → Option P → ServerConfiguration → Base GpsCoordinates E
  fresh made instance configuration = (new_base made instance false configuration []).0

  -- The service serves, with one worker, which reads and has the callbacks of the task.
  abbrev pub IsServing : End × Base GpsCoordinates E → Type 0
  IsServing (end, s) =
      (end ≡ serves)
      × ((worker : ContextWorker GpsCoordinates E) × (s.context_workers ≡ worker ∷ [])
          × IsReading worker
          × (worker.message_events ≡ messages gps)
          × (worker.subscription_events ≡ updates gps []))

  -- Suppose that the configuration is read, that the worker is bound and the connection made, that
  -- the event manager can be allocated, that the watchdog accepts the connection, that the connect
  -- request has a body and is written, and that the watchdog answers it with success and a sequence
  -- code while the service waits. Then `main` of the example service, with nothing started before,
  -- comes to serve, with one worker that reads and has the callbacks of the service's task; whether
  -- there is a database plays no part.
  pub main-IsServing :
      {P : Type 0} (pool instance : Option P) (settings : Settings GpsCoordinates E)
      (m : Message Operation) (d : ConnectResponseData) (before configuration : ServerConfiguration)
      → 0 < length (connect_message settings.protocol).body
      → 0 < m.header.size
      → m.header.operation_code ≡ connect_response
      → settings.protocol.parse_connect_response m.body ≡ some d
      → accepts d (new_watchdog settings.uninitialized).derived ≡ true
      → settings.during_wait ≡ write_completes ∷ write_completes ∷ message_arrives m ∷ []
      → read_configuration {X = StartException} settings.file before
        ≡ returned (true, configuration)
      → settings.sockets ≡ sockets_made bound
      → settings.connect_result ≡ accepted
      → settings.allocated ≡ true
      → settings.task ≡ task gps
      → Returns (main settings (fresh pool instance before)) IsServing
  unfolding start_read new_worker EventManager.initialize task new_base
  main-IsServing pool instance settings m d before configuration has_request has_body is_connect
        parsed success arrives reads made accepted_now allocated is_task =
      let runs =
        ap
          (λ f.
            f
              (EventManager.initialize settings.allocated
                (fresh pool instance before).event_manager).1)
          is_task
        ∙ ap
            (λ b. task gps (EventManager.initialize b (fresh pool instance before).event_manager).1)
            allocated
        ∙ task_lem gps in
      Returns-mono (main settings (fresh pool instance before)) _ IsServing
        (main_connects settings m d has_request has_body is_connect parsed success arrives
          (fresh pool instance before) configuration bound _ _ reads made accepted_now runs)
        λ (end, s') (ended, connection, manager, configured, workers).
          (ended, (_, workers, (refl, refl), refl, refl))
