-- ===== src/WatchdogResponseHandlers.antt =====
-- Source/include/ServiceWatchdogResponseHandlers.hpp and Source/src/ServiceWatchdogResponseHandlers.cpp.
-- The messages of the watchdog are generated from a protocol that is downloaded by the build: a
-- message is here what the accessors that the source calls return on it, the enumerations have the
-- enumerators that the source names and `other` for every other value, and parsing is a parameter.
-- A handler is made for one message. It returns, or throws with an error code; the state beside
-- the code is that in which it threw. Logging is left out.
pub mod Connect
pub mod Ping
pub mod Scenarios
pub mod Tests
use process_manager_service.Prelude.{
  Bool, Bytes, Option, Outcome, false, if◌then◌else◌, none, not, returned, some, threw, true,
  undefined, ℕ, ◌==◌,
}
use process_manager_service.WatchdogConnectionState.{ConnectionState}

pub data ErrorCode : Type 0 where
  resend_connect_request resend_ping_request resend_reconnect_request failed_to_parse : ErrorCode

-- WatchdogService::ResponseCode
pub data ResponseCode : Type 0 where
  success invalid_connection_state not_service_identifier service_not_exists unknown : ResponseCode
  other : ℕ → ResponseCode

-- WatchdogService::ConnectionState
pub data RemoteState : Type 0 where
  registered connected disconnected : RemoteState
  other : ℕ → RemoteState

-- WatchdogService::ConnectResponseData and WatchdogService::ReconnectResponseData
pub record ConnectResponseData : Type 0 where
  pub has_sequencecode : Bool
  pub sequencecode : ℕ
  pub responsecode : ResponseCode
  pub has_connectionstate : Bool
  pub connectionstate : RemoteState

-- What the handlers share with the connection: `sequenceCode` and the connection state. The source
-- does not initialize `sequenceCode`: until it is assigned, `is_code_assigned` is false, and to read
-- it is undefined behaviour.
pub record WatchdogData : Type 0 where
  pub is_code_assigned : Bool
  pub sequence_code : ℕ
  pub connection_state : ConnectionState

abbrev pub Handled : Type 0 → Type 0
Handled S = Outcome (ErrorCode × S) S

abbrev pub is_success : ResponseCode → Bool
is_success success = true
is_success _ = false

abbrev pub become_connected : ℕ → WatchdogData → WatchdogData
become_connected code s = record s {
  is_code_assigned = true;
  sequence_code = code;
  connection_state = ConnectionState.connected;
}

unfoldable handle_response_invalid_connection_state :
    ConnectResponseData → WatchdogData → Handled WatchdogData
handle_response_invalid_connection_state d s =
    if d.has_connectionstate
    then elim d.connectionstate [
      | RemoteState.registered ↦ threw (resend_connect_request, s)
      | RemoteState.connected ↦ returned s
      | RemoteState.disconnected ↦ threw (resend_connect_request, s)
      | RemoteState.other n ↦ returned s
    ]
    else returned s

unfoldable handle_received_connect_failure :
    ConnectResponseData → WatchdogData → Handled WatchdogData
unfolding handle_response_invalid_connection_state
handle_received_connect_failure d s = elim d.responsecode [
  | ResponseCode.invalid_connection_state ↦ handle_response_invalid_connection_state d s
  | ResponseCode.not_service_identifier ↦ returned s
  | ResponseCode.service_not_exists ↦ returned s
  | ResponseCode.unknown ↦ returned s
  | _ ↦ returned s
]

unfoldable handle_connect_response : ConnectResponseData → WatchdogData → Handled WatchdogData
unfolding handle_received_connect_failure
handle_connect_response d s =
    if not d.has_sequencecode
    then returned s
    else if not (is_success d.responsecode)
    then handle_received_connect_failure d s
    else returned (become_connected d.sequencecode s)

-- WatchdogConnectResponseHandler::handleResponse
unfoldable pub handle_connect :
    (Bytes → Option ConnectResponseData) → Bytes → WatchdogData → Handled WatchdogData
unfolding handle_connect_response
handle_connect parse received s = elim (parse received) [
  | none ↦ threw (failed_to_parse, s)
  | some d ↦ elim s.connection_state [
    | ConnectionState.not_connected ↦ handle_connect_response d s
    | ConnectionState.connected ↦ returned s
    | ConnectionState.shutdown ↦ returned s
  ]
]

unfoldable handle_response_invalid_reconnection_state :
    ConnectResponseData → WatchdogData → Handled WatchdogData
handle_response_invalid_reconnection_state d s =
    if d.has_connectionstate
    then elim d.connectionstate [
      | RemoteState.registered ↦ threw (resend_reconnect_request, s)
      | RemoteState.connected ↦ returned s
      | RemoteState.disconnected ↦ threw (resend_reconnect_request, s)
      | RemoteState.other n ↦ returned s
    ]
    else returned s

unfoldable handle_received_reconnect_failure :
    ConnectResponseData → WatchdogData → Handled WatchdogData
unfolding handle_response_invalid_reconnection_state
handle_received_reconnect_failure d s = elim d.responsecode [
  | ResponseCode.invalid_connection_state ↦ handle_response_invalid_reconnection_state d s
  | ResponseCode.not_service_identifier ↦ returned s
  | ResponseCode.service_not_exists ↦ returned s
  | ResponseCode.unknown ↦ returned s
  | _ ↦ returned s
]

unfoldable handle_reconnect_response : ConnectResponseData → WatchdogData → Handled WatchdogData
unfolding handle_received_reconnect_failure
handle_reconnect_response d s =
    if not (is_success d.responsecode)
    then handle_received_reconnect_failure d s
    else if not d.has_sequencecode
    then returned s
    else returned (become_connected d.sequencecode s)

-- WatchdogReconnectResponseHandler::handleResponse
unfoldable pub handle_reconnect :
    (Bytes → Option ConnectResponseData) → Bytes → WatchdogData → Handled WatchdogData
unfolding handle_reconnect_response
handle_reconnect parse received s = elim (parse received) [
  | none ↦ threw (failed_to_parse, s)
  | some d ↦ elim s.connection_state [
    | ConnectionState.not_connected ↦ handle_reconnect_response d s
    | ConnectionState.connected ↦ returned s
    | ConnectionState.shutdown ↦ returned s
  ]
]

-- WatchdogPingResponseHandler::handleResponse; parsing gives the sequence code of the message, and
-- `ping_timer_set` is the callback.
unfoldable pub handle_ping :
    {S : Type 0} → (Bytes → Option ℕ) → (S → S) → Bool → ℕ → Bytes → S → Handled S
handle_ping parse ping_timer_set is_code_assigned sequence_code received s = elim (parse received) [
  | none ↦ threw (failed_to_parse, s)
  | some code ↦
      if is_code_assigned
      then (if sequence_code == code
          then returned (ping_timer_set s)
          else threw (resend_ping_request, s))
      else undefined
]
