-- ===== src/WatchdogResponseHandlers/Tests.antt =====
-- Responses of the watchdog, and the theorems of their handlers on them.
use process_manager_service.Prelude.{
  Bytes, Option, [], false, if◌then◌else◌, none, some, true, ◌==◌, ◌∷◌, ◌≡◌,
}
use process_manager_service.WatchdogConnectionState.{ConnectionState}
use process_manager_service.WatchdogResponseHandlers.{
  failed_to_parse, ResponseCode, RemoteState, ConnectResponseData, WatchdogData, handle_connect,
  handle_reconnect,
}
use process_manager_service.WatchdogResponseHandlers.Connect.{
  state_after, error_of, accepts, state_after_lem, error_of_lem,
}

abbrev accepting : ConnectResponseData
accepting = record {
  has_sequencecode = true;
  sequencecode = 9;
  responsecode = ResponseCode.success;
  has_connectionstate = false;
  connectionstate = RemoteState.connected;
}

-- The watchdog has the service as registered.
abbrev repeating : ConnectResponseData
repeating = record {
  has_sequencecode = false;
  sequencecode = 0;
  responsecode = ResponseCode.invalid_connection_state;
  has_connectionstate = true;
  connectionstate = RemoteState.registered;
}

abbrev parse : Bytes → Option ConnectResponseData
parse [] = none
parse (b ∷ bytes) = if b == 1 then some accepting else some repeating

abbrev fresh : WatchdogData
fresh = record {
  is_code_assigned = true;
  sequence_code = 0;
  connection_state = ConnectionState.not_connected;
}

abbrev connected_data : WatchdogData
connected_data = record {
  is_code_assigned = true;
  sequence_code = 9;
  connection_state = ConnectionState.connected;
}

state_after_lem_example :
    (state_after fresh (handle_connect parse (1 ∷ []) fresh) ≡ connected_data)
    × (state_after fresh (handle_reconnect parse (1 ∷ []) fresh) ≡ connected_data)
unfolding accepts
state_after_lem_example = state_after_lem parse (1 ∷ []) fresh

error_of_lem_example :
    (error_of (handle_connect parse [] fresh) ≡ some failed_to_parse)
    × (error_of (handle_reconnect parse [] fresh) ≡ some failed_to_parse)
error_of_lem_example = error_of_lem parse [] fresh
