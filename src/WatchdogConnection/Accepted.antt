-- ===== src/WatchdogConnection/Accepted.antt =====
-- How the connection to the watchdog comes to be connected.
use process_manager_service.Prelude.{
  true, false, Bool-cases, Bytes, IfReturns, >>=-IfReturns, IfReturns-mono, IfReturns-at, List,
  Option, Option-cases, [], arith, inl, inr, if◌then◌else◌, none, refl, returned, some, sym, ap,
  threw, undefined, ℕ, ◌&&◌, ◌∙◌, ◌∷◌, ◌≡◌, ◌≢◌, ◌⊎◌,
}
use process_manager_service.Connection.{Message}
use process_manager_service.Connection.Write.{send_message}
use process_manager_service.Connection.Read.{fail_read}
use process_manager_service.Connection.Frame.{
  HeaderReads, Preserves, send_message-Preserves, complete_write-Preserves, fail_write-Preserves,
  fail_read-HeaderReads, receive-Between,
}
use process_manager_service.WatchdogConnectionState.{ConnectionState}
use process_manager_service.WatchdogResponseHandlers.{
  ErrorCode, ConnectResponseData, WatchdogData, Handled, is_success, become_connected,
  handle_connect, handle_reconnect, handle_ping,
}
use process_manager_service.WatchdogConnection.{
  Operation, Protocol, Watchdog, Handler, connect_handler, ping_handler, reconnect_handler,
  get_watchdog_response_handler, run_handler, handle_received_message, complete_wait, with_data,
  on_timer_expiration, ping_message,
}
use process_manager_service.WatchdogConnection.Runs.{
  Event, write_completes, write_fails, message_arrives, read_fails, wait_ends, run_event,
  run_events,
}

-- The sequence code of a response that is a success and has one.
abbrev accepted_code : Option ConnectResponseData → Option ℕ
accepted_code none = none
accepted_code (some d) =
    if d.has_sequencecode && is_success d.responsecode then some d.sequencecode else none

abbrev handler_code : Protocol → Option Handler → Bytes → Option ℕ
handler_code p none body = none
handler_code p (some connect_handler) body = accepted_code (p.parse_connect_response body)
handler_code p (some ping_handler) body = none
handler_code p (some reconnect_handler) body = accepted_code (p.parse_reconnect_response body)

-- The sequence code that an event brings from the watchdog.
abbrev pub event_code : Protocol → Event → Option ℕ
event_code p (message_arrives m) =
    handler_code p (get_watchdog_response_handler m.header.operation_code) m.body
event_code p write_completes = none
event_code p (write_fails n) = none
event_code p read_fails = none
event_code p wait_ends = none

-- Some event of the history is a connect or a reconnect response with success and with the code.
abbrev pub Brings : Protocol → List Event → ℕ → Type 0
Brings p [] code = ⊥
Brings p (event ∷ events) code = (event_code p event ≡ some code) ⊎ Brings p events code

-- What an event makes of the shared data: nothing, or it connects a service that was not connected.
abbrev pub Becomes : Option ℕ → WatchdogData → WatchdogData → Type 0
Becomes code s s' =
    (s' ≡ s)
    ⊎ ((n : ℕ) × (code ≡ some n)
        × (s.connection_state ≡ ConnectionState.not_connected)
        × (s' ≡ become_connected n s))

connect-Becomes :
    (parse : Bytes → Option ConnectResponseData) (body : Bytes) (s : WatchdogData)
    → IfReturns (handle_connect parse body s) (Becomes (accepted_code (parse body)) s)
unfolding handle_connect
connect-Becomes parse body s = ground arith

reconnect-Becomes :
    (parse : Bytes → Option ConnectResponseData) (body : Bytes) (s : WatchdogData)
    → IfReturns (handle_reconnect parse body s) (Becomes (accepted_code (parse body)) s)
unfolding handle_reconnect
reconnect-Becomes parse body s = ground arith

-- The connection holds no read that it did not hold, and its data have changed as they may.
abbrev Handles : Option ℕ → Watchdog → Handled Watchdog → Type 0
Handles code c h = IfReturns h (λ c'. (c'.reads ≡ c.reads) × Becomes code c.derived c'.derived)

with_data-Handles :
    (code : Option ℕ) (c : Watchdog) (h : Handled WatchdogData)
    → IfReturns h (Becomes code c.derived)
    → Handles code c (with_data c h)
with_data-Handles code c (returned d) b = (refl, b)
with_data-Handles code c (threw e) b = tt
with_data-Handles code c undefined b = tt

module _ (p : Protocol) where
  run_handler-Handles :
      (handler : Handler) (body : Bytes) (c : Watchdog)
      → Handles (handler_code p (some handler) body) c (run_handler p handler body c)
  unfolding run_handler
  run_handler-Handles connect_handler body c =
      with_data-Handles _ c _ (connect-Becomes p.parse_connect_response body c.derived)
  run_handler-Handles ping_handler body c = unfold handle_ping in ground arith
  run_handler-Handles reconnect_handler body c =
      with_data-Handles _ c _ (reconnect-Becomes p.parse_reconnect_response body c.derived)

  handle_received_message-Handles :
      (m : Message Operation) (c : Watchdog)
      → Handles (event_code p (message_arrives m)) c (handle_received_message p (some m) c)
  unfolding handle_received_message
  handle_received_message-Handles m c =
      elim (Option-cases (get_watchdog_response_handler m.header.operation_code)) [
        | inl e ↦ rw (e, handle_received_message) (refl, inl refl)
        | inr (handler, e) ↦ rw (e, handle_received_message) (run_handler-Handles handler m.body c)
      ]

  pub waits_cases :
      (waits : List ℕ) → (waits ≡ []) ⊎ ((n : ℕ) × (rest : List ℕ) × (waits ≡ n ∷ rest))
  waits_cases [] = inl refl
  waits_cases (n ∷ rest) = inr (n, rest, refl)

  pub on_timer_assigned :
      (c : Watchdog)
      → c.derived.is_code_assigned ≡ true
      → on_timer_expiration p c ≡ send_message (ping_message p c.derived.sequence_code) c
  unfolding on_timer_expiration
  on_timer_assigned c assigned =
      ap (λ b. if b then send_message (ping_message p c.derived.sequence_code) c else undefined)
        assigned

  on_timer_not_assigned :
      (c : Watchdog) → c.derived.is_code_assigned ≡ false → on_timer_expiration p c ≡ undefined
  unfolding on_timer_expiration
  on_timer_not_assigned c not_assigned =
      ap (λ b. if b then send_message (ping_message p c.derived.sequence_code) c else undefined)
        not_assigned

  module _ (header_size : ℕ) (unset : Operation) where
    -- Between two messages, with the data as the event may leave them.
    abbrev pub Steps : Option ℕ → Watchdog → Handled Watchdog → Type 0
    Steps code c h = IfReturns h (λ c'. HeaderReads c'.reads × Becomes code c.derived c'.derived)

    Preserves-Steps :
        (c : Watchdog) (h : Handled Watchdog) → HeaderReads c.reads → Preserves c h → Steps none c h
    Preserves-Steps c h r k = IfReturns-mono h _ _ k λ c' (d, e). (rw e r, inl d)

    pub run_event-Steps :
        (event : Event) (c : Watchdog)
        → HeaderReads c.reads
        → Steps (event_code p event) c (run_event p header_size unset event c)
    unfolding run_event
    run_event-Steps write_completes c r =
        Preserves-Steps c _ r (complete_write-Preserves (ErrorCode × Watchdog) c header_size)
    run_event-Steps (write_fails n) c r =
        Preserves-Steps c _ r (fail_write-Preserves (ErrorCode × Watchdog) c header_size n)
    run_event-Steps (message_arrives m) c r =
        receive-Between (Becomes (event_code p (message_arrives m)) c.derived) header_size unset
          (handle_received_message p) m c r (inl refl)
          (handle_received_message-Handles m (record c { incoming_message = none; reads = [] }))
    run_event-Steps read_fails c r =
        IfReturns-mono (fail_read c) _ _ (fail_read-HeaderReads (ErrorCode × Watchdog) c r)
          λ c' (r', d). (r', inl d)
    run_event-Steps wait_ends c r = elim (waits_cases c.waits) [
      | inl e ↦ rw (e, complete_wait) (r, inl refl)
      | inr (wait, waits, e) ↦
          rw (e, complete_wait)
            (elim (Bool-cases c.derived.is_code_assigned) [
              | inl assigned ↦ rw (on_timer_assigned (record c { waits = waits }) assigned) (
                  Preserves-Steps c _ r (
                    send_message-Preserves (ErrorCode × Watchdog) (record c { waits = waits })
                      (ping_message p c.derived.sequence_code)))
              | inr not_assigned ↦
                  rw (on_timer_not_assigned (record c { waits = waits }) not_assigned) tt
            ])
    ]

    run_connected_stays :
        (events : List Event) (c : Watchdog)
        → HeaderReads c.reads
        → c.derived.connection_state ≢ ConnectionState.not_connected
        → IfReturns (run_events p header_size unset events c) (λ c'. c'.derived ≡ c.derived)
    unfolding run_events
    run_connected_stays [] c r h = refl
    run_connected_stays (event ∷ events) c r h =
        >>=-IfReturns (run_event p header_size unset event c) _ _ _ (run_event-Steps event c r)
          λ c1 (r1, becomes). elim becomes [
            | inl same ↦
                IfReturns-mono (run_events p header_size unset events c1)
                  (λ c'. c'.derived ≡ c1.derived) (λ c'. c'.derived ≡ c.derived)
                  (run_connected_stays events c1 r1
                    (λ e. h (sym (ap (λ d. d.connection_state) same) ∙ e)))
                  λ c' e. e ∙ same
            | inr (n, code, fresh, e) ↦ absurd (h fresh)
          ]

    -- The data are as they were, or the history brings the code with which they are connected.
    abbrev Ends : List Event → WatchdogData → WatchdogData → Type 0
    Ends events s s' =
        (s' ≡ s)
        ⊎ (Brings p events s'.sequence_code × (s'.connection_state ≡ ConnectionState.connected))

    run_events-Ends :
        (events : List Event) (c : Watchdog)
        → HeaderReads c.reads
        → IfReturns
            (run_events p header_size unset events c)
            (λ c'. Ends events c.derived c'.derived)
    unfolding run_events
    run_events-Ends [] c r = inl refl
    run_events-Ends (event ∷ events) c r =
        >>=-IfReturns (run_event p header_size unset event c) _ _ _ (run_event-Steps event c r)
          λ c1 (r1, becomes). elim becomes [
            | inl same ↦
                IfReturns-mono (run_events p header_size unset events c1)
                  (λ c'. Ends events c1.derived c'.derived)
                  (λ c'. Ends (event ∷ events) c.derived c'.derived) (run_events-Ends events c1 r1)
                  λ c' ends. elim ends [
                    | inl e ↦ inl (e ∙ same)
                    | inr (brings, connected) ↦ inr (inr brings, connected)
                  ]
            | inr (n, code, fresh, e) ↦
                IfReturns-mono (run_events p header_size unset events c1)
                  (λ c'. c'.derived ≡ c1.derived) (λ c'. Ends (event ∷ events) c.derived c'.derived)
                  (run_connected_stays events c1 r1 (λ k. cc))
                  λ c' same. inr (
                    inl (code ∙ ap some (sym (ap (λ d. d.sequence_code) (same ∙ e)))),
                    ap (λ d. d.connection_state) (same ∙ e),
                  )
          ]

    -- If a service that was not connected is connected after a history that began between two
    -- messages, then one of the messages that arrived is a connect or a reconnect response with
    -- success and with a sequence code, and that code is the one that the connection holds.
    pub run_events_connected :
        (events : List Event) (c c' : Watchdog)
        → HeaderReads c.reads
        → c.derived.connection_state ≡ ConnectionState.not_connected
        → run_events p header_size unset events c ≡ returned c'
        → c'.derived.connection_state ≡ ConnectionState.connected
        → Brings p events c'.derived.sequence_code
    run_events_connected events c c' r fresh e connected =
        elim (IfReturns-at _ (λ x. Ends events c.derived x.derived) c' (run_events-Ends events c r)
          e) [
            | inl same ↦ absurd (cc (ap (λ d. d.connection_state) same))
            | inr (brings, k) ↦ brings
          ]
