-- ===== src/ExampleService.antt =====
-- Tests/ExampleServicesTests/ServiceOneTest/GpsCoordinates.cpp and ServiceOneTestMain.cpp beside it: a
-- service that keeps the last coordinates of each module and forwards them to subscribers. A
-- coordinate is the bit pattern of its int32_t; the map is an association list. `Gps` is the code
-- that is generated from GPS.proto: what `Is`, `UnpackTo`, `GetTypeName` and `PackFrom` give.
pub mod Coordinates
pub mod Task
pub mod Startup
pub mod Database
pub mod Updates
pub mod Tests
use process_manager_service.Prelude.{
  Bool, Bytes, List, Outcome, [], if◌then◌else◌, none, returned, some, ℕ, ◌==◌, ◌>>=◌, ◌∷◌,
}
use process_manager_service.Event.{Any, CacheException, MessageEvent, SubscribeEvent}
use process_manager_service.EventManager.{
  EventManager, register_new_event_handler, register_new_subscription_handler,
}
use process_manager_service.ServiceBase.{run_forever}

-- GPS::CoordinatesUpdateRequest
pub record Update : Type 0 where
  pub identifier : ℕ
  pub x : ℕ
  pub y : ℕ

pub record Gps : Type 0 where
  pub is_update : Any → Bool
  pub is_get : Any → Bool
  pub unpack_update : Any → Update
  pub update_type : Bytes
  pub pack_subscribe : Update → Any

-- std::pair<int32_t, int32_t>
pub record Pair : Type 0 where
  pub first : ℕ
  pub second : ℕ

-- GpsCoordinates::identifierToCoordinates
abbrev pub GpsCoordinates : Type 0
GpsCoordinates = List (ℕ × Pair)

unfoldable pub set_coordinates : ℕ → Pair → GpsCoordinates → GpsCoordinates
set_coordinates identifier coordinates [] = (identifier, coordinates) ∷ []
set_coordinates identifier coordinates ((key, old) ∷ rest) =
    if key == identifier
    then (key, coordinates) ∷ rest
    else (key, old) ∷ set_coordinates identifier coordinates rest

-- The source returns a default pair, whatever it is asked.
unfoldable get_coordinates : ℕ → GpsCoordinates → Pair
get_coordinates identifier coordinates = record { first = 0; second = 0 }

-- SimpleSubscribeUpdateMessage
abbrev pub subscribe_update_event : Gps → SubscribeEvent GpsCoordinates
subscribe_update_event gps = record {
  callback =
      some (record { run = λ any w. (some (gps.pack_subscribe (gps.unpack_update any)), w) });
}

module _ {E : Type 0} (gps : Gps) where
  -- SimpleUpdateMessageClass
  abbrev pub update_event : MessageEvent GpsCoordinates E
  update_event = record {
    callback = some (record {
      validate = λ any w. (gps.is_update any, w);
      run = λ sender any w.
          let update = gps.unpack_update any in
          (
            none,
            set_coordinates sender.sender_identifier
                (record { first = update.x; second = update.y }) w,
          );
    });
  }

  -- SimpleGetMessageClass
  abbrev pub get_event : MessageEvent GpsCoordinates E
  get_event = record {
    callback =
        some (record { validate = λ any w. (gps.is_get any, w); run = λ sender any w. (none, w) });
  }

  -- `Task::run`; what the registrations return is not looked at.
  unfoldable pub task :
      EventManager GpsCoordinates E → Outcome CacheException (ℕ × EventManager GpsCoordinates E)
  unfolding register_new_event_handler register_new_subscription_handler
  task s = register_new_event_handler 1 (some update_event) s >>= λ (first, s1).
      register_new_event_handler 1 (some get_event) s1 >>= λ (second, s2).
      register_new_subscription_handler gps.update_type (some (subscribe_update_event gps)) s2
      >>= λ (third, s3). returned (run_forever, s3)
