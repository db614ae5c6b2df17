-- ===== src/WatchdogResponseHandlers/Ping.antt =====
-- What a ping response does, and that a connected service stays connected.
use process_manager_service.Prelude.{
  Bytes, List, Option, Option-cases, [], arith, inl, inr, none, refl, returned, some, threw, true,
  ℕ, ◌↔◌, ◌∷◌, ◌≡◌, ◌≢◌,
}
use process_manager_service.WatchdogConnectionState.{ConnectionState}
use process_manager_service.WatchdogResponseHandlers.{
  ErrorCode, resend_ping_request, failed_to_parse, ConnectResponseData, WatchdogData,
  handle_connect, handle_reconnect, handle_ping,
}
use process_manager_service.WatchdogResponseHandlers.Connect.{state_after}

-- The two ways in which a ping response ends, where the sequence code has been assigned.
pub handle_ping_cases :
    {S : Type 0} (parse : Bytes → Option ℕ) (ping_timer_set : S → S) (sequence_code : ℕ)
    (received : Bytes) (s : S)
    → (parse received ≡ some sequence_code
        → handle_ping parse ping_timer_set true sequence_code received s
          ≡ returned (ping_timer_set s))
      × (parse received ≢ some sequence_code
          → (e : ErrorCode) × (handle_ping parse ping_timer_set true sequence_code received s
              ≡ threw (e, s))
            × ((e ≡ failed_to_parse) ↔ (parse received ≡ none)))
unfolding handle_ping
handle_ping_cases parse ping_timer_set sequence_code received s = (
  λ right. ground arith,
  λ wrong. elim (Option-cases (parse received)) [
    | inl none_parsed ↦ (failed_to_parse, ground arith, (λ e. none_parsed, λ e. refl))
    | inr (code, parsed) ↦ (resend_ping_request, ground arith, (λ e. cc, λ e. cc))
  ],
)

-- The sequence code has been assigned. A ping response sets the timer exactly when it parses to the sequence code of the connection. The
-- handler throws, with the state as it was, in every other case: that the message does not parse,
-- exactly when it does not, and that the ping is to be sent again, exactly when it parses to another
-- code.
pub handle_ping_lem :
    {S : Type 0} (parse : Bytes → Option ℕ) (ping_timer_set : S → S) (sequence_code : ℕ)
    (received : Bytes) (s : S)
    → let handled = handle_ping parse ping_timer_set true sequence_code received s in
      ((handled ≡ returned (ping_timer_set s)) ↔ (parse received ≡ some sequence_code))
      × ((handled ≡ threw (failed_to_parse, s)) ↔ (parse received ≡ none))
      × ((handled ≡ threw (resend_ping_request, s))
          ↔ ((code : ℕ) × (parse received ≡ some code) × (code ≢ sequence_code)))
unfolding handle_ping
handle_ping_lem parse ping_timer_set sequence_code received s = (
  ground arith,
  ground arith,
  (
    λ e. elim (Option-cases (parse received)) [
      | inl nothing ↦ absurd (ground arith)
      | inr (code, parsed) ↦ (code, parsed, λ same. ground arith)
    ],
    λ (code, parsed, other). ground arith,
  ),
)

-- The responses that change the shared state.
data Response : Type 0 where
  connect reconnect : Bytes → Response

-- A sequence of responses, each handled whether or not the one before it threw.
unfoldable handle_all :
    (Bytes → Option ConnectResponseData) → List Response → WatchdogData → WatchdogData
handle_all parse [] s = s
handle_all parse (connect received ∷ rest) s =
    handle_all parse rest (state_after s (handle_connect parse received s))
handle_all parse (reconnect received ∷ rest) s =
    handle_all parse rest (state_after s (handle_reconnect parse received s))

unchanged :
    (parse : Bytes → Option ConnectResponseData) (received : Bytes) (s : WatchdogData)
    → s.connection_state ≢ ConnectionState.not_connected
    → (state_after s (handle_connect parse received s) ≡ s)
      × (state_after s (handle_reconnect parse received s) ≡ s)
unfolding handle_connect handle_reconnect
unchanged parse received s h = (ground arith, ground arith)

-- Once the service is connected, or is shutting down, no sequence of connect and reconnect
-- responses changes the connection state or the sequence code.
handle_all_unchanged :
    (parse : Bytes → Option ConnectResponseData) (responses : List Response) (s : WatchdogData)
    → s.connection_state ≢ ConnectionState.not_connected
    → handle_all parse responses s ≡ s
unfolding handle_all
handle_all_unchanged parse [] s h = refl
handle_all_unchanged parse (connect received ∷ rest) s h =
    rw (unchanged parse received s h).0 (handle_all_unchanged parse rest s h)
handle_all_unchanged parse (reconnect received ∷ rest) s h =
    rw (unchanged parse received s h).1 (handle_all_unchanged parse rest s h)
