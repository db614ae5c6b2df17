-- ===== src/Event.antt =====
-- Source/include/Event.hpp and Source/include/ServiceCommon.hpp: messages, senders and the events
-- that wrap a user's callback. `W` is the state that the user's callbacks share (such as the
-- GpsCoordinates of the example service), `E` the type of boost's UDP endpoints. A smart pointer
-- is an Option; a call through a null pointer is undefined behaviour.
pub mod Ids
use process_manager_service.Prelude.{
  ℕ, some, List, Bytes, undefined, false, returned, Option, Bool, Outcome, none,
}

-- What the program uses of google::protobuf::Any.
pub record Any : Type 0 where
  pub type_url : Bytes
  pub value : Bytes

pub record Sender (E : Type 0) : Type 0 where
  pub sender_identifier : ℕ
  pub sender_endpoint : E

-- A user's class with the members `validate` and `run` that MessageEvent calls.
pub record MessageCallback (W E : Type 0) : Type 0 where
  pub validate : Any → W → Bool × W
  pub run : Sender E → Any → W → Option Any × W

pub record MessageEvent (W E : Type 0) : Type 0 where
  pub callback : Option (MessageCallback W E)

pub record SubscribeCallback (W : Type 0) : Type 0 where
  pub run : Any → W → Option Any × W

pub record SubscribeEvent (W : Type 0) : Type 0 where
  pub callback : Option (SubscribeCallback W)

pub record Subscription (W : Type 0) : Type 0 where
  pub id : ℕ
  pub message_type : Bytes
  pub subscribers : List ℕ
  pub event : SubscribeEvent W

-- The exceptions that the caches throw and the event manager catches.
pub data CacheException : Type 0 where
  null_event : CacheException

module _ {W E : Type 0} where
  unfoldable pub validate_message : MessageEvent W E → Any → W → Bool × W
  validate_message event any w = elim event.callback [
    | none ↦ (false, w)
    | some c ↦ c.validate any w
  ]

  unfoldable pub handle_received_message :
      MessageEvent W E → Sender E → Any → W → Outcome CacheException (Option Any × W)
  handle_received_message event sender any w = elim event.callback [
    | none ↦ undefined
    | some c ↦ returned (c.run sender any w)
  ]

unfoldable pub subscription_handle :
    {W : Type 0} → SubscribeEvent W → Any → W → Outcome CacheException (Option Any × W)
subscription_handle event any w = elim event.callback [
  | none ↦ undefined
  | some c ↦ returned (c.run any w)
]
