-- ===== src/WatchdogResponseHandlers/Scenarios.antt =====
-- Tests/ServiceWatchdogResponseHandlersTests: the sections of the repository's tests, run on the model. A
-- message that was serialized is parsed to what was set in it.
use process_manager_service.Prelude.{
  not, ◌&&◌, ◌==◌, Bool, List, Bytes, Option, [], false, none, refl, returned, some, threw, true, ℕ,
  ◌+◌, ◌∷◌, ◌≡◌,
}
use process_manager_service.WatchdogConnectionState.{ConnectionState}
use process_manager_service.WatchdogResponseHandlers.Connect.{state_after}
use process_manager_service.WatchdogResponseHandlers.{
  resend_connect_request, resend_ping_request, resend_reconnect_request, failed_to_parse,
  ResponseCode, RemoteState, ConnectResponseData, WatchdogData, Handled, become_connected,
  handle_connect, handle_reconnect, handle_ping,
}

-- A response with a code and nothing else.
abbrev with_code : ResponseCode → ConnectResponseData
with_code code = record {
  has_sequencecode = false;
  sequencecode = 0;
  responsecode = code;
  has_connectionstate = false;
  connectionstate = RemoteState.registered;
}

abbrev not_connected : ℕ → WatchdogData
not_connected code = record {
  is_code_assigned = true;
  sequence_code = code;
  connection_state = ConnectionState.not_connected;
}

-- "abcd"
abbrev invalid_message : Bytes
invalid_message = 97 ∷ 98 ∷ 99 ∷ 100 ∷ []

abbrev connect_gets : Option ConnectResponseData → WatchdogData → Handled WatchdogData
unfolding handle_connect
connect_gets parsed s = handle_connect (λ body. parsed) invalid_message s

abbrev reconnect_gets : Option ConnectResponseData → WatchdogData → Handled WatchdogData
unfolding handle_reconnect
reconnect_gets parsed s = handle_reconnect (λ body. parsed) invalid_message s

parsing_invalid_message :
    (connect_gets none (not_connected 0) ≡ threw (failed_to_parse, not_connected 0))
    × (reconnect_gets none (not_connected 0) ≡ threw (failed_to_parse, not_connected 0))
unfolding connect_gets reconnect_gets
parsing_invalid_message = (refl, refl)

success_with_sequence_code :
    let d = record (with_code ResponseCode.success) { has_sequencecode = true; sequencecode = 3 } in
    (connect_gets (some d) (not_connected 5) ≡ returned (become_connected 3 (not_connected 5)))
    × (reconnect_gets (some d) (not_connected 5) ≡ returned (become_connected 3 (not_connected 5)))
unfolding connect_gets reconnect_gets
success_with_sequence_code = (refl, refl)

success_without_sequence_code :
    let d = with_code ResponseCode.success in
    (connect_gets (some d) (not_connected 5) ≡ returned (not_connected 5))
    × (reconnect_gets (some d) (not_connected 5) ≡ returned (not_connected 5))
unfolding connect_gets reconnect_gets
success_without_sequence_code = (refl, refl)

invalid_connection_state :
    let d = record (with_code ResponseCode.invalid_connection_state) {
      has_sequencecode = true;
      sequencecode = 5;
      has_connectionstate = true;
    } in
    (connect_gets (some d) (not_connected 0) ≡ threw (resend_connect_request, not_connected 0))
    × (reconnect_gets (some d) (not_connected 0)
        ≡ threw (resend_reconnect_request, not_connected 0))
unfolding connect_gets reconnect_gets
invalid_connection_state = (refl, refl)

not_service_identifier :
    let d = with_code ResponseCode.not_service_identifier in
    (connect_gets (some d) (not_connected 0) ≡ returned (not_connected 0))
    × (reconnect_gets (some d) (not_connected 0) ≡ returned (not_connected 0))
unfolding connect_gets reconnect_gets
not_service_identifier = (refl, refl)

service_not_exists :
    let d = with_code ResponseCode.service_not_exists in
    (connect_gets (some d) (not_connected 0) ≡ returned (not_connected 0))
    × (reconnect_gets (some d) (not_connected 0) ≡ returned (not_connected 0))
unfolding connect_gets reconnect_gets
service_not_exists = (refl, refl)

-- The ping timer counts how often it is set.
ping_sections :
    (handle_ping (λ body. none) (λ n. n + 1) true 0 invalid_message 0 ≡ threw (failed_to_parse, 0))
    × (handle_ping (λ body. some 1) (λ n. n + 1) true 1 [] 0 ≡ returned 1)
    × (handle_ping (λ body. some 1) (λ n. n + 1) true 5 [] 0 ≡ threw (resend_ping_request, 0))
unfolding handle_ping
ping_sections = (refl, refl, refl)

abbrev throws : {S : Type 0} → Handled S → Bool
throws (threw e) = true
throws _ = false

abbrev is_state : ConnectionState → WatchdogData → Bool
is_state ConnectionState.connected s = elim s.connection_state [
  | ConnectionState.connected ↦ true
  | _ ↦ false
]
is_state ConnectionState.not_connected s = elim s.connection_state [
  | ConnectionState.not_connected ↦ true
  | _ ↦ false
]
is_state ConnectionState.shutdown s = elim s.connection_state [
  | ConnectionState.shutdown ↦ true
  | _ ↦ false
]

-- What a section requires of a message that is handled without an exception.
abbrev leaves : ConnectionState → (WatchdogData → Bool) → Handled WatchdogData → Bool
leaves state also (returned s) = is_state state s && also s
leaves state also _ = false

-- The sections of the test of a handler of responses, each with what it requires.
abbrev sections : (Option ConnectResponseData → WatchdogData → Handled WatchdogData) → List Bool
sections handles =
    let success = record (with_code ResponseCode.success) {
      has_sequencecode = true;
      sequencecode = 3;
    } in
    let invalid = record (with_code ResponseCode.invalid_connection_state) {
      has_sequencecode = true;
      sequencecode = 5;
      has_connectionstate = true;
    } in
    let left = handles (some invalid) (not_connected 0) in
    throws (handles none (not_connected 0))
    ∷ leaves ConnectionState.connected (λ s. s.sequence_code == 3)
        (handles (some success) (not_connected 5))
    ∷ leaves ConnectionState.not_connected (λ s. true)
        (handles (some (with_code ResponseCode.success)) (not_connected 5))
    ∷ (throws left && is_state ConnectionState.not_connected (state_after (not_connected 0) left))
    ∷ leaves ConnectionState.not_connected (λ s. true)
        (handles (some (with_code ResponseCode.not_service_identifier)) (not_connected 0))
    ∷ leaves ConnectionState.not_connected (λ s. true)
        (handles (some (with_code ResponseCode.service_not_exists)) (not_connected 0))
    ∷ []

abbrev connect_test : List Bool
unfolding connect_gets
connect_test = sections connect_gets

abbrev reconnect_test : List Bool
unfolding reconnect_gets
reconnect_test = sections reconnect_gets

abbrev ping_test : List Bool
unfolding handle_ping
ping_test =
    throws (handle_ping (λ body. none) (λ n. n + 1) true 0 invalid_message 0)
    ∷ not (throws (handle_ping (λ body. some 1) (λ n. n + 1) true 1 [] 0))
    ∷ throws (handle_ping (λ body. some 1) (λ n. n + 1) true 5 [] 0)
    ∷ []

-- Every requirement of the three tests holds.
tests_pass :
    (connect_test ≡ true ∷ true ∷ true ∷ true ∷ true ∷ true ∷ [])
    × (reconnect_test ≡ connect_test)
    × (ping_test ≡ true ∷ true ∷ true ∷ [])
unfolding connect_test reconnect_test ping_test
tests_pass = (refl, refl, refl)
