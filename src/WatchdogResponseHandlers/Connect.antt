-- ===== src/WatchdogResponseHandlers/Connect.antt =====
-- When a response of the watchdog connects the service, and when it asks for a request again.
use process_manager_service.Prelude.{
  Bool, Bytes, Option, arith, false, if◌then◌else◌, none, returned, some, threw, true, undefined,
  ◌&&◌, ◌≡◌,
}
use process_manager_service.WatchdogConnectionState.{ConnectionState}
use process_manager_service.WatchdogResponseHandlers.{
  ErrorCode, resend_connect_request, resend_reconnect_request, failed_to_parse, ResponseCode,
  RemoteState, ConnectResponseData, WatchdogData, Handled, is_success, become_connected,
  handle_connect, handle_reconnect,
}

-- The state that a handler leaves, whether it returns or throws.
abbrev pub state_after : {S : Type 0} → S → Handled S → S
state_after s (returned s') = s'
state_after s (threw (e, s')) = s'
state_after s undefined = s

abbrev pub error_of : {S : Type 0} → Handled S → Option ErrorCode
error_of (returned s) = none
error_of (threw (e, s)) = some e
error_of undefined = none

abbrev is_not_connected : ConnectionState → Bool
is_not_connected ConnectionState.not_connected = true
is_not_connected _ = false

-- The service takes the response: it is not connected, and the response is a success with a
-- sequence code.
unfoldable pub accepts : ConnectResponseData → WatchdogData → Bool
accepts d s = is_not_connected s.connection_state && d.has_sequencecode && is_success d.responsecode

abbrev is_invalid_state : ResponseCode → Bool
is_invalid_state ResponseCode.invalid_connection_state = true
is_invalid_state _ = false

abbrev is_registered_or_disconnected : RemoteState → Bool
is_registered_or_disconnected RemoteState.registered = true
is_registered_or_disconnected RemoteState.disconnected = true
is_registered_or_disconnected _ = false

-- The response asks for a repetition: it says that the service was in an invalid state, and that
-- the watchdog has it as registered or as disconnected.
unfoldable pub asks_again : ConnectResponseData → Bool
asks_again d =
    is_invalid_state d.responsecode
    && d.has_connectionstate
    && is_registered_or_disconnected d.connectionstate

module _ (parse : Bytes → Option ConnectResponseData) (received : Bytes) (s : WatchdogData) where
  -- After a connect response, and after a reconnect response, the service is connected with the
  -- response's sequence code if it was not connected and the message parses to a success with a
  -- sequence code; in every other case, exceptions included, nothing has changed.
  pub state_after_lem :
      let expected = elim (parse received) as (λ x. WatchdogData) [
        | none ↦ s
        | some d ↦ if accepts d s then become_connected d.sequencecode s else s
      ] in
      (state_after s (handle_connect parse received s) ≡ expected)
      × (state_after s (handle_reconnect parse received s) ≡ expected)
  unfolding handle_connect handle_reconnect accepts
  state_after_lem = (ground arith, ground arith)

  -- A connect response throws exactly when the message does not parse, or when the service is not
  -- connected and the response has a sequence code and asks for a repetition; a reconnect response
  -- exactly when the message does not parse, or when the service is not connected and the response
  -- asks for a repetition, with a sequence code or without.
  pub error_of_lem :
      (error_of (handle_connect parse received s)
        ≡ elim (parse received) as (λ x. Option ErrorCode) [
          | none ↦ some failed_to_parse
          | some d ↦
              if d.has_sequencecode && is_not_connected s.connection_state && asks_again d
              then some resend_connect_request
              else none
        ])
      × (error_of (handle_reconnect parse received s)
          ≡ elim (parse received) as (λ x. Option ErrorCode) [
            | none ↦ some failed_to_parse
            | some d ↦
                if is_not_connected s.connection_state && asks_again d
                then some resend_reconnect_request
                else none
          ])
  unfolding handle_connect handle_reconnect asks_again
  error_of_lem = (ground arith, ground arith)

  -- A response without a sequence code that asks for a repetition is dropped by the connect
  -- handler, with the state as it was, while the reconnect handler throws on it.
  connect_reconnect_differ :
      (d : ConnectResponseData)
      → parse received ≡ some d
      → d.has_sequencecode ≡ false
      → is_not_connected s.connection_state ≡ true
      → asks_again d ≡ true
      → (handle_connect parse received s ≡ returned s)
        × (handle_reconnect parse received s ≡ threw (resend_reconnect_request, s))
  unfolding handle_connect handle_reconnect asks_again
  connect_reconnect_differ d p no_code idle again = (ground arith, ground arith)

pub handle_connect-accepts :
    (parse : Bytes → Option ConnectResponseData) (received : Bytes) (s : WatchdogData)
    (d : ConnectResponseData)
    → parse received ≡ some d
    → accepts d s ≡ true
    → handle_connect parse received s ≡ returned (become_connected d.sequencecode s)
unfolding handle_connect accepts
handle_connect-accepts parse received s d p a = ground arith
