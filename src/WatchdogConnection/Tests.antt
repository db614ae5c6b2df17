-- ===== src/WatchdogConnection/Tests.antt =====
-- A connection to the watchdog, its histories, and its theorems on them.
pub mod Pings
use process_manager_service.Prelude.{
  Safely, Bytes, Option, [], false, if◌then◌else◌, none, refl, some, true, ℕ, ◌==◌, ◌∷◌,
}
use process_manager_service.Connection.{Message, header_read}
use process_manager_service.Connection.Read.{empty_message}
use process_manager_service.WatchdogConnectionState.{ConnectionState}
use process_manager_service.WatchdogResponseHandlers.{
  ResponseCode, RemoteState, ConnectResponseData, become_connected, handle_connect,
}
use process_manager_service.WatchdogConnection.{
  Operation, other, connect_response, Protocol, Watchdog, handle_received_message,
}
use process_manager_service.Connection.Safety.{IsSafe}
use process_manager_service.WatchdogConnection.Safety.{IsAssigned, run_events-IsSafe}
use process_manager_service.WatchdogConnection.Runs.{
  message_arrives, wait_ends, write_fails, read_fails, run_event, run_events,
}
use process_manager_service.WatchdogConnection.Accepted.{Brings, run_events_connected}

abbrev pub accepting : ConnectResponseData
accepting = record {
  has_sequencecode = true;
  sequencecode = 9;
  responsecode = ResponseCode.success;
  has_connectionstate = false;
  connectionstate = RemoteState.connected;
}

abbrev registered : ConnectResponseData
registered = record {
  has_sequencecode = false;
  sequencecode = 0;
  responsecode = ResponseCode.invalid_connection_state;
  has_connectionstate = true;
  connectionstate = RemoteState.registered;
}

abbrev parse : Bytes → Option ConnectResponseData
parse [] = none
parse (b ∷ bytes) = if b == 1 then some accepting else some registered

abbrev parse_code : Bytes → Option ℕ
parse_code [] = none
parse_code (b ∷ bytes) = some b

-- Every request is one byte.
abbrev pub protocol : Protocol
protocol = record {
  service_identifier = 3;
  parse_connect_response = parse;
  parse_ping_response = parse_code;
  parse_reconnect_response = parse;
  serialize_connect_request = λ n. n ∷ [];
  serialize_ping_request = λ n. n ∷ [];
  serialize_reconnect_request = λ n. n ∷ [];
  serialize_shutdown_request = λ n. n ∷ [];
}

abbrev pub message : Operation → ℕ → Message Operation
message operation b = record {
  header = record { operation_code = operation; size = 1 };
  body = b ∷ [];
}

abbrev pub unset : Operation
unset = other 0

abbrev pub reading : Watchdog
reading = record {
  socket = some true;
  messages_queue = [];
  incoming_message = some (empty_message unset);
  sending_in_progress = false;
  writes = [];
  reads = header_read ∷ [];
  waits = [];
  wire = [];
  derived = record {
    is_code_assigned = true;
    sequence_code = 0;
    connection_state = ConnectionState.not_connected;
  };
}

-- One message of another kind, and then the response.
run_events_connected_example :
    Brings protocol
      (message_arrives (message (other 77) 1) ∷ message_arrives (message connect_response 1) ∷ [])
      9
run_events_connected_example =
    run_events_connected protocol 8 unset
      (message_arrives (message (other 77) 1) ∷ message_arrives (message connect_response 1) ∷ [])
      reading (record reading { derived = become_connected 9 reading.derived }) tt refl
      (unfold run_events run_event handle_received_message handle_connect in refl) refl

-- The wait for the ping ends, its header fails to go out, a message of another kind comes, and the
-- read fails.
run_events-IsSafe_example :
    Safely
      (run_events protocol 8 unset
        (wait_ends ∷ write_fails 3 ∷ message_arrives (message (other 77) 1) ∷ read_fails ∷ [])
        (record reading { waits = 1000 ∷ [] }))
      (λ c. IsSafe c × IsAssigned c)
run_events-IsSafe_example =
    run_events-IsSafe protocol 8 unset
      (wait_ends ∷ write_fails 3 ∷ message_arrives (message (other 77) 1) ∷ read_fails ∷ [])
      (record reading { waits = 1000 ∷ [] }) (tt, refl, refl) refl
