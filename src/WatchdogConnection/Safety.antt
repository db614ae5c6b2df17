-- ===== src/WatchdogConnection/Safety.antt =====
-- That no history of the connection to the watchdog runs into undefined behaviour.
use process_manager_service.Prelude.{
  ap, true, ◌≡◌, ◌∙◌, IfReturns, IfReturns-mono, Option, Safely-IfReturns, Bool-cases, Bytes, List,
  Option-cases, Safely, >>=-Safely, [], arith, inl, inr, none, refl, returned, some, threw,
  undefined, ℕ, ◌==◌, ◌∷◌, ◌≢◌,
}
use process_manager_service.Connection.{Message, ReadOp, header_read, body_read}
use process_manager_service.Connection.Frame.{HeaderReads}
use process_manager_service.Connection.Safety.{
  CanRead, IsSafe, IsHandled, send_message-IsSafe, complete_write-IsSafe, fail_write-IsSafe,
  fail_read-IsSafe, receive-IsSafe,
}
use process_manager_service.WatchdogResponseHandlers.{
  ErrorCode, WatchdogData, Handled, handle_connect, handle_reconnect, handle_ping,
}
use process_manager_service.WatchdogConnection.{
  Operation, Protocol, Watchdog, Handler, connect_handler, ping_handler, reconnect_handler,
  get_watchdog_response_handler, run_handler, handle_received_message, with_data, complete_wait,
  ping_message,
}
use process_manager_service.WatchdogConnection.Runs.{
  Event, write_completes, write_fails, message_arrives, read_fails, wait_ends, run_event,
  run_events,
}
use process_manager_service.WatchdogConnection.Accepted.{
  Becomes, event_code, on_timer_assigned, run_event-Steps, waits_cases,
}

with_data-IsHandled :
    (c : Watchdog) (h : Handled WatchdogData)
    → IsHandled c
    → h ≢ undefined
    → Safely (with_data c h) IsHandled
with_data-IsHandled c (returned d) handled defined = handled
with_data-IsHandled c (threw e) handled defined = tt
with_data-IsHandled c undefined handled defined = absurd (defined refl)

-- The sequence code has been assigned.
abbrev pub IsAssigned : Watchdog → Type 0
IsAssigned c = c.derived.is_code_assigned ≡ true

CanRead-HeaderReads :
    (buffer : Option (Message Operation)) (reads : List ReadOp)
    → CanRead buffer reads
    → HeaderReads reads
CanRead-HeaderReads buffer [] can = tt
CanRead-HeaderReads buffer (header_read ∷ []) can = tt
CanRead-HeaderReads buffer (header_read ∷ read ∷ reads) can = absurd can
CanRead-HeaderReads buffer (body_read n ∷ reads) can = absurd can

module _ (p : Protocol) where
  run_handler-IsHandled :
      (handler : Handler) (body : Bytes) (c : Watchdog)
      → IsHandled c
      → IsAssigned c
      → Safely (run_handler p handler body c) IsHandled
  unfolding run_handler handle_ping
  run_handler-IsHandled connect_handler body c handled assigned =
      with_data-IsHandled c _ handled (unfold handle_connect in λ e. ground arith)
  run_handler-IsHandled ping_handler body c handled assigned =
      elim (Option-cases (p.parse_ping_response body)) [
        | inl e ↦ rw (e, handle_ping) tt
        | inr (code, e) ↦ elim (Bool-cases (c.derived.sequence_code == code)) [
          | inl same ↦ rw (e, handle_ping) (rw assigned (rw same handled))
          | inr other ↦ rw (e, handle_ping) (rw assigned (rw other tt))
        ]
      ]
  run_handler-IsHandled reconnect_handler body c handled assigned =
      with_data-IsHandled c _ handled (unfold handle_reconnect in λ e. ground arith)

  handle_received_message-IsHandled :
      (m : Message Operation) (c : Watchdog)
      → IsHandled c
      → IsAssigned c
      → Safely (handle_received_message p (some m) c) IsHandled
  unfolding handle_received_message
  handle_received_message-IsHandled m c handled assigned =
      elim (Option-cases (get_watchdog_response_handler m.header.operation_code)) [
        | inl e ↦ rw (e, handle_received_message) handled
        | inr (handler, e) ↦
            rw (e, handle_received_message)
              (run_handler-IsHandled handler m.body c handled assigned)
      ]

  module _ (header_size : ℕ) (unset : Operation) where
    run_event-IsSafe :
        (event : Event) (c : Watchdog)
        → IsSafe c
        → IsAssigned c
        → Safely (run_event p header_size unset event c) IsSafe
    unfolding run_event
    run_event-IsSafe write_completes c safe assigned =
        complete_write-IsSafe (ErrorCode × Watchdog) header_size c safe
    run_event-IsSafe (write_fails n) c safe assigned =
        fail_write-IsSafe (ErrorCode × Watchdog) header_size n c safe
    run_event-IsSafe (message_arrives m) c safe assigned =
        receive-IsSafe header_size unset (handle_received_message p) m c safe (
          handle_received_message-IsHandled m (record c { incoming_message = none; reads = [] })
            (safe.0, safe.1, refl) assigned)
    run_event-IsSafe read_fails c safe assigned = fail_read-IsSafe (ErrorCode × Watchdog) c safe
    run_event-IsSafe wait_ends c safe assigned = elim (waits_cases p c.waits) [
      | inl e ↦ rw (e, complete_wait) safe
      | inr (wait, waits, e) ↦
          rw (e, complete_wait)
            (rw (on_timer_assigned p (record c { waits = waits }) assigned) (
              send_message-IsSafe (ErrorCode × Watchdog) (ping_message p c.derived.sequence_code)
                (record c { waits = waits }) safe))
    ]

    -- An event leaves the code assigned: it changes the shared data only as it assigns a code.
    run_event-IsAssigned :
        (event : Event) (c : Watchdog)
        → IsSafe c
        → IsAssigned c
        → IfReturns (run_event p header_size unset event c) IsAssigned
    run_event-IsAssigned event c safe assigned =
        IfReturns-mono (run_event p header_size unset event c)
          (λ c'. HeaderReads c'.reads × Becomes (event_code p event) c.derived c'.derived)
          IsAssigned
          (run_event-Steps p header_size unset event c
            (CanRead-HeaderReads c.incoming_message c.reads safe.2))
          λ c' (r, becomes). elim becomes [
            | inl same ↦ ap (λ d. d.is_code_assigned) same ∙ assigned
            | inr (n, code, fresh, e) ↦ ap (λ d. d.is_code_assigned) e
          ]

    -- From a connection on a socket that is not null, that stands between two messages, whose
    -- sequence code has been assigned, and whose outstanding write, if there is one, is of a part of
    -- the message at the front of its queue, no history of completed and failed writes, of arriving
    -- messages, of failed reads and of waits that end runs into undefined behaviour: it ends in such
    -- a connection again, or a handler throws.
    pub run_events-IsSafe :
        (events : List Event) (c : Watchdog)
        → IsSafe c
        → IsAssigned c
        → Safely (run_events p header_size unset events c) (λ c'. IsSafe c' × IsAssigned c')
    unfolding run_events
    run_events-IsSafe [] c safe assigned = (safe, assigned)
    run_events-IsSafe (event ∷ events) c safe assigned =
        >>=-Safely (run_event p header_size unset event c) _ (λ c'. IsSafe c' × IsAssigned c')
          (λ c'. IsSafe c' × IsAssigned c')
          (Safely-IfReturns (run_event p header_size unset event c) IsSafe IsAssigned
            (run_event-IsSafe event c safe assigned) (run_event-IsAssigned event c safe assigned))
          λ c' (safe', assigned'). run_events-IsSafe events c' safe' assigned'
