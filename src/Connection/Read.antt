-- ===== src/Connection/Read.antt =====
-- The receiving half of Source/include/Connection.hpp. `handle` is the derived class's
-- `handleReceivedMessage`, `allocated` whether `std::make_unique` finds memory. A completed read
-- passes what it has read to its handler.
use process_manager_service.Prelude.{
  Bool, Bytes, Option, Outcome, [], false, if◌then◌else◌, leb, length, none, not, returned, some,
  suc, undefined, zero, ℕ, ◌++◌, ◌==◌, ◌>>=◌, ◌∷◌,
}
use process_manager_service.Connection.{
  MessageHeader, Message, header_read, body_read, Connection, disconnect,
}

-- The value-initialised message that a new buffer holds; `unset` is the operation code 0.
abbrev pub empty_message : {T : Type 0} → T → Message T
empty_message unset = record { header = record { operation_code = unset; size = 0 }; body = [] }

-- `body.resize(size)`, whose new bytes are 0 until the read fills them.
unfoldable zeros : ℕ → Bytes
zeros zero = []
zeros (suc n) = 0 ∷ zeros n

module _ {D T X : Type 0} where
  -- boost::asio::async_read into the header of the buffer message, through its pointer and the
  -- socket's.
  unfoldable read_message_header : Connection D T → Outcome X (Connection D T)
  read_message_header c = elim c.socket [
    | none ↦ undefined
    | some open_now ↦ elim c.incoming_message [
      | none ↦ undefined
      | some m ↦ returned (record c { reads = c.reads ++ header_read ∷ [] })
    ]
  ]

  unfoldable read_message_body : Connection D T → Outcome X (Connection D T)
  read_message_body c = elim c.socket [
    | none ↦ undefined
    | some open_now ↦ elim c.incoming_message [
      | none ↦ undefined
      | some m ↦ returned (record c { reads = c.reads ++ body_read (length m.body) ∷ [] })
    ]
  ]

  unfoldable post_read_message_header :
      ℕ → Bool → ℕ → MessageHeader T → Connection D T → Outcome X (Connection D T)
  unfolding zeros read_message_body disconnect
  post_read_message_header header_size error bytes_transferred header c =
      if error
      then disconnect c
      else if not (bytes_transferred == header_size)
      then returned c
      else elim c.incoming_message [
        | none ↦ undefined
        | some m ↦
            if leb header.size 0
            then returned (record c { incoming_message = some (record m { header = header }) })
            else read_message_body (record c {
              incoming_message = some (record { header = header; body = zeros header.size });
            })
      ]

  unfoldable pub start_reading_sequence : T → Bool → Connection D T → Outcome X (Connection D T)
  unfolding read_message_header
  start_reading_sequence unset allocated c =
      read_message_header
        (record c { incoming_message = if allocated then some (empty_message unset) else none })

  -- The buffer message is moved to the handler, and reading starts again behind it.
  unfoldable post_read_message_body :
      T
      → Bool
      → (Option (Message T) → Connection D T → Outcome X (Connection D T))
      → Bool
      → Bytes
      → Connection D T
      → Outcome X (Connection D T)
  unfolding start_reading_sequence disconnect
  post_read_message_body unset allocated handle error body c =
      if error
      then disconnect c
      else handle
          (elim c.incoming_message [ none ↦ none | some m ↦ some (record m { body = body }) ])
          (record c { incoming_message = none })
        >>= start_reading_sequence unset allocated

  -- `startReading`; the time of the last ping, which nothing reads, is left out.
  unfoldable pub start_reading : T → Bool → Connection D T → Outcome X (Connection D T)
  unfolding start_reading_sequence
  start_reading unset allocated c = start_reading_sequence unset allocated c

  -- The environment's step: a header, and a body if the connection asks for one, arrive without an
  -- error. With no read outstanding nothing happens.
  unfoldable pub receive_body :
      T
      → Bool
      → (Option (Message T) → Connection D T → Outcome X (Connection D T))
      → Bytes
      → Connection D T
      → Outcome X (Connection D T)
  unfolding post_read_message_body
  receive_body unset allocated handle body c = elim c.reads [
    | [] ↦ returned c
    | read ∷ reads ↦ elim read [
      | header_read ↦ returned c
      | body_read size ↦
          post_read_message_body unset allocated handle false body (record c { reads = reads })
    ]
  ]

  unfoldable pub receive_header : ℕ → MessageHeader T → Connection D T → Outcome X (Connection D T)
  unfolding post_read_message_header
  receive_header header_size header c = elim c.reads [
    | [] ↦ returned c
    | read ∷ reads ↦ elim read [
      | header_read ↦
          post_read_message_header header_size false header_size header (record c { reads = reads })
      | body_read size ↦ returned c
    ]
  ]

  unfoldable pub receive :
      ℕ
      → T
      → Bool
      → (Option (Message T) → Connection D T → Outcome X (Connection D T))
      → Message T
      → Connection D T
      → Outcome X (Connection D T)
  unfolding receive_header receive_body
  receive header_size unset allocated handle m c =
      receive_header header_size m.header c >>= receive_body unset allocated handle m.body

  -- The environment's step: the read that is outstanding ends with an error, which both handlers
  -- take alike.
  unfoldable pub fail_read : Connection D T → Outcome X (Connection D T)
  unfolding disconnect
  fail_read c = elim c.reads [
    | [] ↦ returned c
    | read ∷ reads ↦ disconnect (record c { reads = reads })
  ]
