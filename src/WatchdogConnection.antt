-- ===== src/WatchdogConnection.antt =====
-- Source/include/ServiceWatchdogConnection.hpp and Source/src/ServiceWatchdogConnection.cpp: the TCP
-- connection to the watchdog. `Protocol` holds what the generated code of the watchdog's protocol
-- does, and the service's identifier. An exception that leaves a handler of asio ends the thread
-- that ran it, and with it the process.
pub mod Responses
pub mod Runs
pub mod Pings
pub mod Accepted
pub mod Safety
pub mod Tests
use process_manager_service.Prelude.{
  Bytes, Option, [], if◌then◌else◌, length, none, returned, some, threw, undefined, ℕ, ◌%◌, ◌^◌,
  ◌∷◌,
}
use process_manager_service.Connection.{Message, Connection, set_timer_expiration}
use process_manager_service.Connection.Write.{send_message}
use process_manager_service.WatchdogResponseHandlers.{
  ErrorCode, resend_connect_request, resend_ping_request, resend_reconnect_request, failed_to_parse,
  ConnectResponseData, WatchdogData, Handled, handle_connect, handle_reconnect, handle_ping,
}

-- WatchdogService::Operation: the enumerators that the source names, and every other value.
pub data Operation : Type 0 where
  connect_request connect_response ping_request ping_response : Operation
  reconnect_request reconnect_response shutdown_request : Operation
  other : ℕ → Operation

pub record Protocol : Type 0 where
  pub service_identifier : ℕ
  pub parse_connect_response : Bytes → Option ConnectResponseData
  pub parse_ping_response : Bytes → Option ℕ
  pub parse_reconnect_response : Bytes → Option ConnectResponseData
  pub serialize_connect_request : ℕ → Bytes
  pub serialize_ping_request : ℕ → Bytes
  pub serialize_reconnect_request : ℕ → Bytes
  pub serialize_shutdown_request : ℕ → Bytes

abbrev pub Watchdog : Type 0
Watchdog = Connection WatchdogData Operation

-- The classes derived from WatchdogResponseHandler.
pub data Handler : Type 0 where
  connect_handler ping_handler reconnect_handler : Handler

unfoldable pub get_watchdog_response_handler : Operation → Option Handler
get_watchdog_response_handler connect_response = some connect_handler
get_watchdog_response_handler ping_response = some ping_handler
get_watchdog_response_handler reconnect_response = some reconnect_handler
get_watchdog_response_handler _ = none

-- A handler of the shared data, run in the connection that holds them.
abbrev pub with_data : Watchdog → Handled WatchdogData → Handled Watchdog
with_data c (returned d) = returned (record c { derived = d })
with_data c (threw (e, d)) = threw (e, record c { derived = d })
with_data c undefined = undefined

-- `header.size` is a uint32_t.
unfoldable pub request : Operation → Bytes → Message Operation
request operation body = record {
  header = record { operation_code = operation; size = length body % 2 ^ 32 };
  body = body;
}

module _ (p : Protocol) where
  -- The virtual call of `handleResponse`.
  unfoldable pub run_handler : Handler → Bytes → Watchdog → Handled Watchdog
  unfolding set_timer_expiration
  run_handler connect_handler body c =
      with_data c (handle_connect p.parse_connect_response body c.derived)
  run_handler ping_handler body c =
      handle_ping p.parse_ping_response (set_timer_expiration 3000) c.derived.is_code_assigned
        c.derived.sequence_code body c
  run_handler reconnect_handler body c =
      with_data c (handle_reconnect p.parse_reconnect_response body c.derived)

  -- The source calls the handler here, and not through `handleResponse` of the connection.
  unfoldable pub handle_received_message : Option (Message Operation) → Watchdog → Handled Watchdog
  unfolding get_watchdog_response_handler run_handler
  handle_received_message none c = returned c
  handle_received_message (some m) c =
      elim (get_watchdog_response_handler m.header.operation_code) [
        | none ↦ returned c
        | some handler ↦ run_handler handler m.body c
      ]

  unfoldable pub connect_message : Message Operation
  unfolding request
  connect_message = request connect_request (p.serialize_connect_request p.service_identifier)

  unfoldable pub ping_message : ℕ → Message Operation
  unfolding request
  ping_message code = request ping_request (p.serialize_ping_request code)

  unfoldable pub reconnect_message : Message Operation
  unfolding request
  reconnect_message = request reconnect_request (p.serialize_reconnect_request p.service_identifier)

  unfoldable pub shutdown_message : Message Operation
  unfolding request
  shutdown_message = request shutdown_request (p.serialize_shutdown_request p.service_identifier)

  unfoldable pub send_connect_request : Watchdog → Handled Watchdog
  send_connect_request c = send_message connect_message c

  unfoldable pub send_ping_request : Watchdog → Handled Watchdog
  send_ping_request c =
      if c.derived.is_code_assigned
      then send_message (ping_message c.derived.sequence_code) c
      else undefined

  unfoldable pub send_reconnect_request : Watchdog → Handled Watchdog
  send_reconnect_request c = send_message reconnect_message c

  unfoldable pub send_shutdown_request : Watchdog → Handled Watchdog
  send_shutdown_request c = send_message shutdown_message c

  -- A wait on the timer ends, by expiry or by cancellation: its handler sends a ping.
  unfoldable pub on_timer_expiration : Watchdog → Handled Watchdog
  unfolding send_ping_request
  on_timer_expiration c = send_ping_request c

  unfoldable pub complete_wait : Watchdog → Handled Watchdog
  unfolding on_timer_expiration
  complete_wait c = elim c.waits [
    | [] ↦ returned c
    | wait ∷ waits ↦ on_timer_expiration (record c { waits = waits })
  ]

  unfoldable pub process_caught_response_exception : ErrorCode → Watchdog → Handled Watchdog
  unfolding send_connect_request send_ping_request send_reconnect_request
  process_caught_response_exception failed_to_parse c = returned c
  process_caught_response_exception resend_connect_request c = send_connect_request c
  process_caught_response_exception resend_ping_request c = send_ping_request c
  process_caught_response_exception resend_reconnect_request c = send_reconnect_request c

  -- The `try` block of the connection's own `handleResponse`, which nothing calls.
  unfoldable pub catch_response : Handled Watchdog → Handled Watchdog
  unfolding process_caught_response_exception
  catch_response (returned c) = returned c
  catch_response (threw (e, c)) = process_caught_response_exception e c
  catch_response undefined = undefined

  unfoldable pub handle_response : Option Handler → Bytes → Watchdog → Handled Watchdog
  unfolding catch_response run_handler
  handle_response none received c = returned c
  handle_response (some handler) received c = catch_response (run_handler handler received c)
