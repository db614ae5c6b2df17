-- ===== src/WatchdogConnection/Runs.antt =====
-- Histories of the connection to the watchdog: what asio and the timer bring to it, one after the
-- other. A message that arrives is read whole, header and body.
use process_manager_service.Prelude.{List, [], returned, true, ℕ, ◌>>=◌, ◌∷◌}
use process_manager_service.Connection.{Message}
use process_manager_service.Connection.Write.{complete_write, fail_write}
use process_manager_service.Connection.Read.{receive, fail_read}
use process_manager_service.WatchdogResponseHandlers.{Handled}
use process_manager_service.WatchdogConnection.{
  Operation, Protocol, Watchdog, handle_received_message, complete_wait,
}

pub data Event : Type 0 where
  write_completes : Event
  write_fails : ℕ → Event
  message_arrives : Message Operation → Event
  read_fails : Event
  wait_ends : Event

module _ (p : Protocol) (header_size : ℕ) (unset : Operation) where
  unfoldable pub run_event : Event → Watchdog → Handled Watchdog
  unfolding complete_write fail_write receive fail_read complete_wait
  run_event write_completes c = complete_write header_size c
  run_event (write_fails bytes_transferred) c = fail_write header_size bytes_transferred c
  run_event (message_arrives m) c = receive header_size unset true (handle_received_message p) m c
  run_event read_fails c = fail_read c
  run_event wait_ends c = complete_wait p c

  unfoldable pub run_events : List Event → Watchdog → Handled Watchdog
  run_events [] c = returned c
  run_events (event ∷ events) c = run_event event c >>= λ c'. run_events events c'
