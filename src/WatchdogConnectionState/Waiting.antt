-- ===== src/WatchdogConnectionState/Waiting.antt =====
-- How a wait of Source/src/ServiceWatchdogConnectionState.cpp ends, and what it returns.
use process_manager_service.Prelude.{
  Bool, List, [], arith, false, not, refl, true, ◌∙◌, ◌∷◌, ◌≡◌, ap,
}
use process_manager_service.WatchdogConnectionState.{
  ConnectionState, WatchdogConnectionState, Wake, notified, timed_out, spurious, can_end,
  begin_wait, end_wait, set_all, set_connection_state_and_notify, timed_wait_for_connection,
}

-- The state that was set last.
abbrev last_state : List ConnectionState → ConnectionState → ConnectionState
last_state [] state = state
last_state (next ∷ states) state = last_state states next

abbrev is_nonempty : List ConnectionState → Bool
is_nonempty [] = false
is_nonempty (state ∷ states) = true

set_lem :
    (state : ConnectionState) (s : WatchdogConnectionState)
    → (set_connection_state_and_notify state s).connection_state ≡ state
unfolding set_connection_state_and_notify
set_lem state s = ground arith

state-set_all :
    (states : List ConnectionState) (s : WatchdogConnectionState)
    → (set_all states s).connection_state ≡ last_state states s.connection_state
unfolding set_all
state-set_all [] s = refl
state-set_all (state ∷ states) s =
    state-set_all states (set_connection_state_and_notify state s)
    ∙ ap (last_state states) (set_lem state s)

notify_idle :
    (state : ConnectionState) (s : WatchdogConnectionState)
    → s.waiting ≡ 0
    → ((set_connection_state_and_notify state s).waiting ≡ 0)
      × ((set_connection_state_and_notify state s).woken ≡ s.woken)
unfolding set_connection_state_and_notify
notify_idle state s h = ground arith

-- With no waiter the notifications are lost.
set_all_idle :
    (states : List ConnectionState) (s : WatchdogConnectionState)
    → s.waiting ≡ 0
    → ((set_all states s).waiting ≡ 0) × ((set_all states s).woken ≡ s.woken)
unfolding set_all
set_all_idle [] s h = (h, refl)
set_all_idle (state ∷ states) s h =
    let (idle, same) = notify_idle state s h in
    let (idle', same') = set_all_idle states (set_connection_state_and_notify state s) idle in
    (idle', same' ∙ same)

notify_waiter :
    (state : ConnectionState) (s : WatchdogConnectionState)
    → s.waiting ≡ 1
    → s.woken ≡ 0
    → ((set_connection_state_and_notify state s).waiting ≡ 0)
      × ((set_connection_state_and_notify state s).woken ≡ 1)
unfolding set_connection_state_and_notify
notify_waiter state s h k = ground arith

-- One waiter: the first notification wakes it, and the others are lost.
set_all_waiter :
    (states : List ConnectionState) (s : WatchdogConnectionState)
    → s.waiting ≡ 1
    → s.woken ≡ 0
    → (can_end notified (set_all states s) ≡ is_nonempty states)
      × (can_end timed_out (set_all states s) ≡ not (is_nonempty states))
unfolding set_all can_end
set_all_waiter [] s h k = ground arith
set_all_waiter (state ∷ states) s h k =
    let (idle, woken) = notify_waiter state s h k in
    ground (arith, set_all_idle states (set_connection_state_and_notify state s) idle)

end_wait_lem :
    (wake : Wake) (s : WatchdogConnectionState) → (end_wait wake s).0 ≡ s.connection_state
unfolding end_wait
end_wait_lem notified s = refl
end_wait_lem timed_out s = refl
end_wait_lem spurious s = refl

-- Whatever other threads set while a thread waits, and however its wait ends, by a notification,
-- by the time or spuriously, the wait returns the state that was set last, and the state as it was
-- if none was set.
timed_wait_for_connection_lem :
    (during : List ConnectionState) (wake : Wake) (s : WatchdogConnectionState)
    → (timed_wait_for_connection during wake s).0 ≡ last_state during s.connection_state
unfolding timed_wait_for_connection
timed_wait_for_connection_lem during wake s =
    end_wait_lem wake (set_all during (begin_wait s)) ∙ state-set_all during (begin_wait s)

-- Of the state before which no thread waits and none is woken: a thread that begins to wait is
-- woken by a notification exactly when a state is set after it has begun. What was set before does
-- not wake it; then only the time or a spurious wake-up ends the wait, which at its end by the time
-- returns the state that was set last.
pub can_end_notified_iff :
    (before during : List ConnectionState) (s : WatchdogConnectionState)
    → s.waiting ≡ 0
    → s.woken ≡ 0
    → let waits = set_all during (begin_wait (set_all before s)) in
      (can_end notified waits ≡ is_nonempty during)
      × (can_end timed_out waits ≡ not (is_nonempty during))
      × ((end_wait timed_out waits).0 ≡ last_state during (last_state before s.connection_state))
unfolding begin_wait
can_end_notified_iff before during s none_waits none_woken =
    let (idle, same) = set_all_idle before s none_waits in
    let begun = begin_wait (set_all before s) in
    let (woken, not_woken) = set_all_waiter during begun (omega arith) (same ∙ none_woken) in
    (
      woken,
      not_woken,
      end_wait_lem timed_out (set_all during begun)
          ∙ state-set_all during begun
          ∙ ap (last_state during) (state-set_all before s),
    )
