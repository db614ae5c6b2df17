-- ===== src/WatchdogConnection/Responses.antt =====
-- What happens to a response of the watchdog on its way from the socket to its handler and back.
use process_manager_service.Prelude.{
  Bool, [], none, returned, some, threw, true, ℕ, ◌<◌, ◌>>=◌, ◌∙◌, ◌≡◌,
}
use process_manager_service.Connection.{Message}
use process_manager_service.Connection.Read.{empty_message, receive, start_reading_sequence}
use process_manager_service.Connection.Reading.{waiting, receive_lem}
use process_manager_service.WatchdogResponseHandlers.{
  ErrorCode, ConnectResponseData, Handled, become_connected,
}
use process_manager_service.WatchdogResponseHandlers.Connect.{accepts, handle_connect-accepts}
use process_manager_service.WatchdogConnection.{
  Operation, connect_response, Protocol, Watchdog, Handler, get_watchdog_response_handler,
  run_handler, handle_received_message, process_caught_response_exception, handle_response,
}

module _ (p : Protocol) (header_size : ℕ) (unset : Operation) (c : Watchdog)
    (buffer : Message Operation) (open_now : Bool) (m : Message Operation) where
  -- The connection while it handles a message: no buffer and no read is held.
  abbrev handling : Watchdog
  handling = record c { socket = some open_now; incoming_message = none; reads = [] }

  abbrev received : Handled Watchdog
  received =
      receive header_size unset true (handle_received_message p) m (waiting c buffer open_now)

  received_lem :
      0 < m.header.size
      → received
        ≡ (handle_received_message p (some m) handling >>= start_reading_sequence unset true)
  received_lem h =
      receive_lem header_size unset true (handle_received_message p) c buffer open_now m h

  -- To a connection that waits for a header there comes a message whose body is not empty. If its
  -- handler throws, then the exception leaves the completion handler of the read with its code and
  -- state, and no request is repeated; the connection's `handleResponse` would have caught it and
  -- acted on its code.
  pub received_throws :
      (handler : Handler) (e : ErrorCode) (c' : Watchdog)
      → 0 < m.header.size
      → get_watchdog_response_handler m.header.operation_code ≡ some handler
      → run_handler p handler m.body handling ≡ threw (e, c')
      → (received ≡ threw (e, c'))
        × (handle_response p (some handler) m.body handling
            ≡ process_caught_response_exception p e c')
  unfolding handle_received_message handle_response
  received_throws handler e c' h is_handler throws =
      (received_lem h ∙ rw (is_handler, handle_received_message) (rw throws), rw throws)

  -- A connect response with a sequence code and with success, to a service that is not connected,
  -- connects it: the service holds the sequence code and is connected, and the connection waits for
  -- the next header.
  pub received_connects :
      (d : ConnectResponseData)
      → 0 < m.header.size
      → m.header.operation_code ≡ connect_response
      → p.parse_connect_response m.body ≡ some d
      → accepts d c.derived ≡ true
      → received
        ≡ returned (
            waiting
              (record c { derived = become_connected d.sequencecode c.derived })
              (empty_message unset)
              open_now)
  unfolding handle_received_message start_reading_sequence get_watchdog_response_handler
  received_connects d h is_connect parsed accepted =
      received_lem h
      ∙ rw (is_connect, handle_received_message)
          (rw (handle_connect-accepts p.parse_connect_response m.body c.derived d parsed accepted))

  -- A message that is no response of the three kinds changes nothing; the connection waits for the
  -- next header.
  received_ignores :
      0 < m.header.size
      → get_watchdog_response_handler m.header.operation_code ≡ none
      → received ≡ returned (waiting c (empty_message unset) open_now)
  unfolding handle_received_message start_reading_sequence
  received_ignores h nothing = received_lem h ∙ rw (nothing, handle_received_message)
