-- ===== src/Connection.antt =====
-- Source/include/Connection.hpp and Source/include/Communication.hpp: a TCP connection that sends
-- queued messages and reads messages, each a header and a body, with boost's asynchronous
-- operations. An operation that has been started stands in `writes`, `reads` or `waits` until its
-- completion, when asio calls the handler; the handlers are in Connection/Write and
-- Connection/Read. `T` is the type of operation codes, `D` the state of the derived class.
pub mod Write
pub mod Read
pub mod Frame
pub mod Safety
pub mod Stream
pub mod Sending
pub mod Runs
pub mod Drain
pub mod Stall
pub mod Race
pub mod Reading
pub mod Delivered
pub mod Tests
use process_manager_service.Prelude.{
  Bool, Bytes, List, Option, Outcome, [], false, if◌then◌else◌, none, returned, some, true,
  undefined, ℕ, ◌++◌, ◌∷◌,
}

pub record MessageHeader (T : Type 0) : Type 0 where
  pub operation_code : T
  pub size : ℕ

pub record Message (T : Type 0) : Type 0 where
  pub header : MessageHeader T
  pub body : Bytes

-- What an asynchronous write was started on, and what has gone out to the peer.
pub data Chunk (T : Type 0) : Type 0 where
  header_chunk : MessageHeader T → Chunk T
  body_chunk : Bytes → Chunk T

-- What an asynchronous read fills: the header of the buffer message, or a body of some size.
pub data ReadOp : Type 0 where
  header_read : ReadOp
  body_read : ℕ → ReadOp

pub record Connection (D T : Type 0) : Type 0 where
  -- A null socket is `none`; otherwise whether it is open.
  pub socket : Option Bool
  pub messages_queue : List (Message T)
  pub incoming_message : Option (Message T)
  pub sending_in_progress : Bool
  pub writes : List (Chunk T)
  pub reads : List ReadOp
  -- The waits on the timer that have been started, each with its milliseconds.
  pub waits : List ℕ
  -- What has been written to the peer, a ghost of the model.
  pub wire : List (Chunk T)
  pub derived : D

-- How a call of the socket's `connect` ends: an attempt opens the socket, and a refused one leaves
-- it open; only where the socket could not be opened does it stay as it was.
pub data ConnectResult : Type 0 where
  accepted refused not_opened : ConnectResult

module _ {D T X : Type 0} where
  -- `disconnect` and `closeSocket`: a call through a null socket is undefined.
  unfoldable pub disconnect : Connection D T → Outcome X (Connection D T)
  disconnect c = elim c.socket [
    | none ↦ undefined
    | some open_now ↦ returned (if open_now then record c { socket = some false } else c)
  ]

  unfoldable pub is_connected : Connection D T → Outcome X Bool
  is_connected c = elim c.socket [ none ↦ undefined | some open_now ↦ returned open_now ]

module _ {D T : Type 0} where
  unfoldable pub connect : ConnectResult → Connection D T → Bool × Connection D T
  connect result c = elim c.socket [
    | none ↦ (false, c)
    | some open_now ↦ elim result [
      | accepted ↦ (true, record c { socket = some true })
      | refused ↦ (false, record c { socket = some true })
      | not_opened ↦ (false, c)
    ]
  ]

  -- `expires_from_now` cancels the waits that are pending; the handler of a cancelled wait runs
  -- like that of any other, for `timerExpired` does not look at the error, so the waits stay.
  unfoldable pub set_timer_expiration : ℕ → Connection D T → Connection D T
  set_timer_expiration milliseconds c = record c { waits = c.waits ++ milliseconds ∷ [] }

  unfoldable make_new_socket : Connection D T → Connection D T
  make_new_socket c = record c { socket = some false }
