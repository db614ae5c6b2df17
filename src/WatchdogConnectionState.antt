-- ===== src/WatchdogConnectionState.antt =====
-- Source/include/ServiceWatchdogConnectionState.hpp and Source/src/ServiceWatchdogConnectionState.cpp:
-- the state of the connection to the watchdog, under a lock, with a condition variable. Each method
-- holds the lock while it reads or writes the state, so a read or a write is one step.
pub mod Waiting
pub mod Tests
use process_manager_service.Prelude.{Bool, List, [], if◌then◌else◌, ltb, ℕ, ◌+◌, ◌-◌, ◌∷◌}

pub data ConnectionState : Type 0 where
  not_connected connected shutdown : ConnectionState

-- A thread that waits has released the lock; `woken` counts the waiters that a notification has
-- released and that have not yet run.
pub record WatchdogConnectionState : Type 0 where
  pub connection_state : ConnectionState
  pub waiting : ℕ
  pub woken : ℕ

unfoldable set_connection_state :
    ConnectionState → WatchdogConnectionState → WatchdogConnectionState
set_connection_state state s = record s { connection_state = state }

-- `notify_one` releases one waiter, if there is one, and is otherwise lost.
unfoldable notify_one : WatchdogConnectionState → WatchdogConnectionState
notify_one s =
    if ltb 0 s.waiting then record s { waiting = s.waiting - 1; woken = s.woken + 1 } else s

unfoldable pub set_connection_state_and_notify :
    ConnectionState → WatchdogConnectionState → WatchdogConnectionState
unfolding set_connection_state notify_one
set_connection_state_and_notify state s = notify_one (set_connection_state state s)

unfoldable get_connection_state : WatchdogConnectionState → ConnectionState
get_connection_state s = s.connection_state

-- `wait_for` and `wait` have no predicate: a wait begins without a look at the state.
unfoldable pub begin_wait : WatchdogConnectionState → WatchdogConnectionState
begin_wait s = record s { waiting = s.waiting + 1 }

-- How a wait ends. Only a timed wait can time out.
pub data Wake : Type 0 where
  notified timed_out spurious : Wake

-- Whether the wait can end so now: by a notification only if a waiter has been released.
unfoldable pub can_end : Wake → WatchdogConnectionState → Bool
can_end notified s = ltb 0 s.woken
can_end timed_out s = ltb 0 s.waiting
can_end spurious s = ltb 0 s.waiting

-- The end of `timedWaitForConnection` or of `waitForConnectionStateChange`: the state as it is now.
unfoldable pub end_wait : Wake → WatchdogConnectionState → ConnectionState × WatchdogConnectionState
unfolding get_connection_state
end_wait notified s = (get_connection_state s, record s { woken = s.woken - 1 })
end_wait timed_out s = (get_connection_state s, record s { waiting = s.waiting - 1 })
end_wait spurious s = (get_connection_state s, record s { waiting = s.waiting - 1 })

-- The states that other threads set while the thread waits.
unfoldable pub set_all : List ConnectionState → WatchdogConnectionState → WatchdogConnectionState
unfolding set_connection_state_and_notify
set_all [] s = s
set_all (state ∷ states) s = set_all states (set_connection_state_and_notify state s)

-- `timedWaitForConnection`, with what the other threads set until it ends, and how it ends.
unfoldable pub timed_wait_for_connection :
    List ConnectionState
    → Wake
    → WatchdogConnectionState
    → ConnectionState × WatchdogConnectionState
unfolding begin_wait set_all end_wait
timed_wait_for_connection during wake s = end_wait wake (set_all during (begin_wait s))
