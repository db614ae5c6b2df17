-- ===== src/WatchdogConnectionState/Tests.antt =====
-- Waits that are and are not notified.
use process_manager_service.Prelude.{[], false, refl, true, ◌∷◌, ◌≡◌}
use process_manager_service.WatchdogConnectionState.{
  ConnectionState, WatchdogConnectionState, notified, timed_out, can_end, begin_wait, end_wait,
  set_all,
}
use process_manager_service.WatchdogConnectionState.Waiting.{can_end_notified_iff}

abbrev not_waiting : WatchdogConnectionState
not_waiting = record { connection_state = ConnectionState.not_connected; waiting = 0; woken = 0 }

-- The state was set before the wait began: only the time ends it, and it returns that state.
can_end_notified_iff_example :
    let waits = set_all [] (begin_wait (set_all (ConnectionState.connected ∷ []) not_waiting)) in
    (can_end notified waits ≡ false)
    × (can_end timed_out waits ≡ true)
    × ((end_wait timed_out waits).0 ≡ ConnectionState.connected)
can_end_notified_iff_example =
    can_end_notified_iff (ConnectionState.connected ∷ []) [] not_waiting refl refl
