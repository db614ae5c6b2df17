-- ===== src/MessageEventsTest.antt =====
-- Tests/MessageEventsTests/MessageEventsTest.cpp: two events that are called through their interface.
-- `Example` is the code that is generated from Example.proto: what `PackFrom`, `Is` and `UnpackTo`
-- give. The callbacks share what the test prints to std::cout.
use process_manager_service.Prelude.{
  Bool, Bytes, List, Outcome, [], false, if◌then◌else◌, none, refl, returned, some, true, ℕ, ◌++◌,
  ◌>>=◌, ◌∷◌, ◌≡◌,
}
use process_manager_service.Event.{
  Any, CacheException, MessageEvent, Sender, handle_received_message, validate_message,
}

-- ExamplePrototypes::CoordinatesUpdate and ExamplePrototypes::CoordinatesGet
record Update : Type 0 where
  x : ℕ
  y : ℕ

record Get : Type 0 where
  identifier : ℕ

record Example : Type 0 where
  pack_update : Update → Any
  pack_get : Get → Any
  is_update : Any → Bool
  is_get : Any → Bool
  unpack_get : Any → Get

-- A line on std::cout.
data Line : Type 0 where
  validated : Bool → Line
  identifier_line : ℕ → Line
  validation_failure : Line
  type_url_line : Bytes → Line

abbrev Output : Type 0
Output = List Line

-- A message whose fields are not set.
abbrev update_message : Example → Any
update_message example = example.pack_update (record { x = 0; y = 0 })

abbrev get_message : Example → Any
get_message example = example.pack_get (record { identifier = 17 })

module _ {E : Type 0} (example : Example) where
  -- SimpleUpdateMessageClass
  abbrev update_event : MessageEvent Output E
  update_event = record {
    callback = some (record {
      validate = λ any w. (example.is_update any, w);
      run = λ sender any w. (none, w);
    });
  }

  -- SimpleGetMessageClass
  abbrev get_event : MessageEvent Output E
  get_event = record {
    callback = some (record {
      validate = λ any w. (example.is_get any, w);
      run = λ sender any w. (none, w ++ identifier_line (example.unpack_get any).identifier ∷ []);
    });
  }

  -- An event is asked, the answer is printed, and the event handles the message all the same.
  unfoldable show_and_handle :
      Sender E → Any → MessageEvent Output E → Output → Outcome CacheException Output
  unfolding validate_message handle_received_message
  show_and_handle sender any event w =
      let (valid, w1) = validate_message event any w in
      handle_received_message event sender any (w1 ++ validated valid ∷ []) >>= λ (response, w2).
      returned w2

  -- The loop over the events.
  unfoldable handle_valid :
      Sender E → Any → List (MessageEvent Output E) → Output → Outcome CacheException Output
  unfolding validate_message handle_received_message
  handle_valid sender any [] w = returned w
  handle_valid sender any (event ∷ events) w =
      let (valid, w1) = validate_message event any w in
      (if valid
        then (handle_received_message event sender any w1 >>= λ (response, w2). returned w2)
        else returned (w1 ++ validation_failure ∷ []))
      >>= handle_valid sender any events

  -- TEST_CASE
  unfoldable test_case : Sender E → Output → Outcome CacheException Output
  unfolding show_and_handle handle_valid
  test_case sender w = do
    w1 ← show_and_handle sender (update_message example) update_event w
    w2 ← show_and_handle sender (get_message example) get_event w1
    w3 ← handle_valid sender (get_message example) (update_event ∷ get_event ∷ []) w2
    returned (w3 ++ type_url_line (get_message example).type_url ∷ [])

  -- A packed message is of its own type only, and unpacks to what was packed. Then the test ends, and
  -- prints: each event accepts the message of its type; the request is handled twice, each time with
  -- its identifier; and in the loop the event of the updates refuses it.
  test_case_lem :
      (sender : Sender E)
      → example.is_update (update_message example) ≡ true
      → example.is_get (get_message example) ≡ true
      → example.is_update (get_message example) ≡ false
      → example.unpack_get (get_message example) ≡ record { identifier = 17 }
      → test_case sender []
        ≡ returned (
            validated true
            ∷ validated true
            ∷ identifier_line 17
            ∷ validation_failure
            ∷ identifier_line 17
            ∷ type_url_line (get_message example).type_url
            ∷ [])
  unfolding test_case
  test_case_lem sender update get other unpacked = rw (update, get, other, unpacked) refl
