-- ===== src/ServiceBase/Failing.antt =====
-- What `main` does where the worker or the connection cannot be made.
use process_manager_service.Prelude.{none, refl, returned, true, undefined, ◌≡◌, ◌≢◌}
use process_manager_service.Configuration.{ServerConfiguration, read_configuration}
use process_manager_service.ContextWorker.{Setup}
use process_manager_service.ServiceBase.{
  Base, Settings, Sockets, worker_fails, connection_fails, sockets_made, StartException,
  start_service, main, initialize_sockets, read_all, join_all,
}
use process_manager_service.ServiceBase.Startup.{prepared, start_service_undefined}

module _ {W E : Type 0} (settings : Settings W E) where
  start_service_sockets :
      (sockets : Sockets) (s : Base W E)
      → ((setup : Setup) → sockets ≢ sockets_made setup)
      → s.watchdog_connection ≡ none
      → start_service settings (prepared settings sockets s) ≡ undefined
  unfolding initialize_sockets read_all join_all
  start_service_sockets worker_fails s no_sockets e = start_service_undefined settings _ e
  start_service_sockets (connection_fails setup) s no_sockets e =
      start_service_undefined settings _ e
  start_service_sockets (sockets_made setup) s no_sockets e = absurd (no_sockets setup refl)

  -- If the configuration is read, but the worker or the connection to the watchdog is not made,
  -- then `main`, from a service that has no connection yet, goes on and calls through the
  -- connection's null pointer, which is undefined behaviour.
  pub main_sockets_fail :
      (s : Base W E) (configuration : ServerConfiguration)
      → s.watchdog_connection ≡ none
      → read_configuration {X = StartException} settings.file s.configuration
        ≡ returned (true, configuration)
      → ((setup : Setup) → settings.sockets ≢ sockets_made setup)
      → main settings s ≡ undefined
  unfolding main
  main_sockets_fail s configuration e was_read no_sockets =
      rw (was_read, main)
        (start_service_sockets settings.sockets (record s { configuration = configuration })
          no_sockets e)
