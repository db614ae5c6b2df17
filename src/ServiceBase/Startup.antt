-- ===== src/ServiceBase/Startup.antt =====
-- When the service runs its task, and what its watchdog connection is then.
use process_manager_service.Prelude.{
  >>=-IfReturns, Bool-cases, IfReturns, IfReturns-at, IfReturns-any, IfReturns-mono, IfReturns-lift,
  IfReturns-self, IfReturns-Returns, Returns, [], ap, arith, false, inl, inr, lift, none, refl,
  returned, some, true, undefined, ℕ, ◌∙◌, ◌∷◌, ◌≡◌, ◌≢◌, ◌⊎◌,
}
use process_manager_service.Connection.{
  header_chunk, header_read, accepted, refused, not_opened, ConnectResult,
}
use process_manager_service.Connection.Write.{send_message}
use process_manager_service.Connection.Read.{empty_message}
use process_manager_service.WatchdogConnectionState.{ConnectionState}
use process_manager_service.WatchdogResponseHandlers.{Handled}
use process_manager_service.Connection.Frame.{HeaderReads}
use process_manager_service.WatchdogConnection.{Watchdog, connect_message}
use process_manager_service.WatchdogConnection.Runs.{run_events}
use process_manager_service.WatchdogConnection.Accepted.{Brings, run_events_connected}
use process_manager_service.Configuration.{ServerConfiguration, read_configuration}
use process_manager_service.ContextWorker.{Setup}
use process_manager_service.ServiceBase.{
  Base, Settings, Sockets, worker_fails, connection_fails, sockets_made, StartException, serves,
  new_watchdog, attempt, connect_to_watchdog, wait_for_connect_response, initialize,
  run_service_task, start_service, main, initialize_sockets, read_all, join_all,
  response_exceptions,
}

module _ {W E : Type 0} (settings : Settings W E) where
  -- The connection after the request has been sent: its header is being written, and the header of
  -- an answer is being read.
  abbrev pub started : Watchdog
  started = record (new_watchdog settings.uninitialized) {
    socket = some true;
    messages_queue = connect_message settings.protocol ∷ [];
    incoming_message = some (empty_message settings.unset);
    sending_in_progress = true;
    writes = header_chunk (connect_message settings.protocol).header ∷ [];
    reads = header_read ∷ [];
  }

  result_cases : (r : ConnectResult) → (r ≡ accepted) ⊎ (r ≢ accepted)
  result_cases accepted = inl refl
  result_cases refused = inr (λ e. cc)
  result_cases not_opened = inr (λ e. cc)

  pub attempt_accepted :
      (s : Base W E)
      → attempt settings accepted (new_watchdog settings.uninitialized) s
        ≡ returned (true, record s { watchdog_connection = some started })
  unfolding attempt new_watchdog send_message
  attempt_accepted s = refl

  attempt_failed :
      (result : ConnectResult) (c : Watchdog) (s : Base W E)
      → result ≢ accepted
      → Returns (attempt settings result c s) (λ (connected, s'). connected ≡ false)
  unfolding attempt
  attempt_failed result c s failed = ground arith

  pub connect_to_watchdog_lem :
      (s : Base W E) (c : Watchdog)
      → s.watchdog_connection ≡ some c
      → connect_to_watchdog settings s ≡ attempt settings settings.connect_result c s
  unfolding connect_to_watchdog
  connect_to_watchdog_lem s c e = rw (e, connect_to_watchdog) refl

  -- The environment lets the service run its task.
  abbrev Brought : Type 0
  Brought = (code : ℕ) × Brings settings.protocol settings.during_wait code

  wait_for_connect_response-Brought :
      (s : Base W E) (c : Watchdog)
      → s.watchdog_connection ≡ some c
      → HeaderReads c.reads
      → c.derived.connection_state ≡ ConnectionState.not_connected
      → IfReturns
          (wait_for_connect_response settings s)
          (λ (answered, s'). answered ≡ true → Brought)
  unfolding wait_for_connect_response
  wait_for_connect_response-Brought s c e r fresh =
      let h : Handled Watchdog =
        run_events settings.protocol settings.header_size settings.unset settings.during_wait c in
      rw (e, wait_for_connect_response)
        (>>=-IfReturns (lift response_exceptions h) _ (λ c1. h ≡ returned c1)
          (λ (answered, s'). answered ≡ true → Brought)
          (IfReturns-lift response_exceptions h (λ c1. h ≡ returned c1) (IfReturns-self h))
          λ c1 ran yes'. (
            c1.derived.sequence_code,
            run_events_connected settings.protocol settings.header_size settings.unset
                settings.during_wait c c1 r fresh ran (ground arith),
          ))

  -- What has to hold for the task to run: the configuration was read, the worker and the connection
  -- were made, the watchdog accepted the connection, and one of its messages brought a sequence code.
  abbrev pub MayRun : Base W E → Type 0
  MayRun s =
      ((configuration : ServerConfiguration) × (read_configuration {X = StartException}
            settings.file s.configuration
          ≡ returned (true, configuration)))
      × ((setup : Setup) × (settings.sockets ≡ sockets_made setup))
      × (settings.connect_result ≡ accepted)
      × Brought

  connect_to_watchdog-accepted :
      (s : Base W E)
      → s.watchdog_connection ≡ some (new_watchdog settings.uninitialized)
      → IfReturns (connect_to_watchdog settings s) (λ (connected, s1).
        connected ≡ true
        → (settings.connect_result ≡ accepted) × (s1.watchdog_connection ≡ some started))
  connect_to_watchdog-accepted s e =
      rw (connect_to_watchdog_lem s _ e) (elim (result_cases settings.connect_result) [
        | inl a ↦
            rw
              (ap (λ r. attempt settings r (new_watchdog settings.uninitialized) s) a
                ∙ attempt_accepted s)
              (λ t. (a, refl))
        | inr failed ↦
            IfReturns-mono
              (attempt settings settings.connect_result (new_watchdog settings.uninitialized) s)
              (λ (connected, s1). connected ≡ false) _
              (IfReturns-Returns
                (attempt settings settings.connect_result (new_watchdog settings.uninitialized) s)
                (λ (connected, s1). connected ≡ false)
                (attempt_failed settings.connect_result (new_watchdog settings.uninitialized) s
                  failed))
              λ r no' yes'. absurd (cc)
      ])

  start_service-Brought :
      (s : Base W E)
      → s.watchdog_connection ≡ some (new_watchdog settings.uninitialized)
      → IfReturns
          (start_service settings s)
          (λ (end, s'). end ≡ serves → (settings.connect_result ≡ accepted) × Brought)
  unfolding start_service
  start_service-Brought s e =
      >>=-IfReturns (connect_to_watchdog settings s) _ _
        (λ (end, s'). end ≡ serves → (settings.connect_result ≡ accepted) × Brought)
        (connect_to_watchdog-accepted s e)
        λ (connected, s1) yes'. elim (Bool-cases connected) [
          | inl t ↦ rw t (
              >>=-IfReturns (wait_for_connect_response settings s1) _ _
                (λ (end, s'). end ≡ serves → (settings.connect_result ≡ accepted) × Brought)
                (wait_for_connect_response-Brought s1 started (yes' t).1 tt
                  (unfold new_watchdog in refl))
                λ (answered, s2) brought. elim (Bool-cases answered) [
                  | inl u ↦ rw u (
                      IfReturns-any (run_service_task settings (initialize settings s2)) _
                        (λ r q. ((yes' t).0, brought u)))
                  | inr u ↦ rw u (λ q. absurd (ground arith))
                ])
          | inr f ↦ rw f (λ q. absurd (ground arith))
        ]

  pub start_service_undefined :
      (s : Base W E) → s.watchdog_connection ≡ none → start_service settings s ≡ undefined
  unfolding start_service
  start_service_undefined s e = rw (e, start_service) refl

  -- What `main` starts the service on.
  abbrev pub prepared : Sockets → Base W E → Base W E
  prepared sockets s = join_all (read_all (initialize_sockets settings.uninitialized sockets s).1)

  prepared-Brought :
      (sockets : Sockets) (s : Base W E)
      → s.watchdog_connection ≡ none
      → IfReturns (start_service settings (prepared sockets s)) (λ (end, s').
        end ≡ serves
        → ((setup : Setup) × (sockets ≡ sockets_made setup))
          × (settings.connect_result ≡ accepted)
          × Brought)
  unfolding initialize_sockets read_all join_all
  prepared-Brought worker_fails s e = rw (start_service_undefined (prepared worker_fails s) e) tt
  prepared-Brought (connection_fails setup) s e =
      rw (start_service_undefined (prepared (connection_fails setup) s) e) tt
  prepared-Brought (sockets_made setup) s e =
      IfReturns-mono (start_service settings (prepared (sockets_made setup) s))
        (λ (end, s'). end ≡ serves → (settings.connect_result ≡ accepted) × Brought) _
        (start_service-Brought (prepared (sockets_made setup) s) refl)
        λ r f q. ((setup, refl), (f q).0, (f q).1)

  main-MayRun :
      (s : Base W E)
      → s.watchdog_connection ≡ none
      → IfReturns (main settings s) (λ (end, s'). end ≡ serves → MayRun s)
  unfolding main
  main-MayRun s e =
      >>=-IfReturns (read_configuration {X = StartException} settings.file s.configuration) _
        (λ r. read_configuration {X = StartException} settings.file s.configuration ≡ returned r)
        (λ (end, s'). end ≡ serves → MayRun s)
        (IfReturns-self (read_configuration {X = StartException} settings.file s.configuration))
        λ (was_read, configuration) reads. elim (Bool-cases was_read) [
          | inl t ↦ rw t (
              IfReturns-mono
                (start_service settings
                  (prepared settings.sockets (record s { configuration = configuration })))
                _ (λ (end, s'). end ≡ serves → MayRun s)
                (prepared-Brought settings.sockets (record s { configuration = configuration }) e)
                λ r f q. (
                  (configuration, reads ∙ ap (λ b. returned (b, configuration)) t),
                  (f q).0,
                  (f q).1,
                  (f q).2,
                ))
          | inr f ↦ rw f (λ q. absurd (ground arith))
        ]

  -- From a service that has no connection yet: if `main` comes to serve, then the configuration was
  -- read, the worker and the connection were made, the watchdog accepted the connection, and while
  -- the service waited a response of the watchdog with success brought a sequence code.
  pub main_serves :
      (s s' : Base W E)
      → s.watchdog_connection ≡ none
      → main settings s ≡ returned (serves, s')
      → MayRun s
  main_serves s s' e served =
      IfReturns-at (main settings s) (λ (end, s''). end ≡ serves → MayRun s) (serves, s')
        (main-MayRun s e) served refl
