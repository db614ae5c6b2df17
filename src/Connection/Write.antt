-- ===== src/Connection/Write.antt =====
-- The sending half of Source/include/Connection.hpp. `header_size` is the source's
-- `sizeof(MessageHeader<T>)`; an asynchronous write is recorded with the bytes it was started on.
use process_manager_service.Prelude.{
  Bool, Option, Outcome, [], false, if◌then◌else◌, length, ltb, none, not, returned, some, threw,
  true, undefined, ℕ, ◌++◌, ◌==◌, ◌>>=◌, ◌∷◌,
}
use process_manager_service.MessageQueue.{front, pop, push, is_empty}
use process_manager_service.Connection.{
  Message, Chunk, header_chunk, body_chunk, Connection, disconnect,
}

-- boost::asio::async_write
abbrev async_write : {D T : Type 0} → Chunk T → Connection D T → Connection D T
async_write chunk c = record c { writes = c.writes ++ chunk ∷ [] }

module _ {D T X : Type 0} where
  unfoldable pub write_message_header : Connection D T → Outcome X (Connection D T)
  unfolding front
  write_message_header c = elim c.socket [
    | none ↦ returned c
    | some open_now ↦
        front c.messages_queue >>= λ m. returned (async_write (header_chunk m.header) c)
  ]

  -- The write that blocks: on an error it throws.
  unfoldable blocking_write_message_header : Option X → Connection D T → Outcome X (Connection D T)
  unfolding front
  blocking_write_message_header failure c = elim c.socket [
    | none ↦ returned c
    | some open_now ↦ front c.messages_queue >>= λ m. elim failure [
      | some x ↦ threw x
      | none ↦ returned (record c { wire = c.wire ++ header_chunk m.header ∷ [] })
    ]
  ]

  unfoldable write_message_body : Connection D T → Outcome X (Connection D T)
  unfolding front
  write_message_body c = elim c.socket [
    | none ↦ undefined
    | some open_now ↦ front c.messages_queue >>= λ m. returned (async_write (body_chunk m.body) c)
  ]

  -- The end of the branch for a message without a body: `sendingInProgress` is left as it is.
  unfoldable pub pop_empty_message : Connection D T → Outcome X (Connection D T)
  unfolding pop is_empty write_message_header
  pop_empty_message c = pop c.messages_queue >>= λ rest.
      let c' = record c { messages_queue = rest } in
      if not (is_empty rest) then write_message_header c' else returned c'

  unfoldable pub post_write_message_header :
      ℕ → Bool → ℕ → Connection D T → Outcome X (Connection D T)
  unfolding front write_message_header write_message_body pop_empty_message disconnect
  post_write_message_header header_size error bytes_transferred c =
      if error
      then (disconnect c >>= λ c'. returned (record c' { sending_in_progress = false }))
      else if not (bytes_transferred == header_size)
      then write_message_header c
      else front c.messages_queue >>= λ m.
          if ltb 0 (length m.body) then write_message_body c else pop_empty_message c

  unfoldable pub post_write_message_body : Bool → Connection D T → Outcome X (Connection D T)
  unfolding pop is_empty write_message_header disconnect
  post_write_message_body error c =
      if error
      then (disconnect c >>= λ c'. returned (record c' { sending_in_progress = false }))
      else pop c.messages_queue >>= λ rest.
          let c' = record c { messages_queue = rest } in
          if not (is_empty rest)
          then write_message_header c'
          else returned (record c' { sending_in_progress = false })

  -- What `sendMessage` does after the push.
  unfoldable start_sending : Connection D T → Outcome X (Connection D T)
  unfolding write_message_header
  start_sending c = elim c.socket [
    | none ↦ returned c
    | some open_now ↦
        if not open_now
        then returned c
        else if c.sending_in_progress
        then returned c
        else write_message_header (record c { sending_in_progress = true })
  ]

  unfoldable pub send_message : Message T → Connection D T → Outcome X (Connection D T)
  unfolding push start_sending
  send_message m c = start_sending (record c { messages_queue = (push m c.messages_queue).1 })

  -- The environment's step: the oldest write completes without an error and in full, and asio
  -- calls its handler. With no write outstanding nothing happens.
  unfoldable run_write_handler : ℕ → Chunk T → Connection D T → Outcome X (Connection D T)
  unfolding post_write_message_header post_write_message_body
  run_write_handler header_size (header_chunk h) c =
      post_write_message_header header_size false header_size c
  run_write_handler header_size (body_chunk b) c = post_write_message_body false c

  unfoldable pub complete_write : ℕ → Connection D T → Outcome X (Connection D T)
  unfolding run_write_handler
  complete_write header_size c = elim c.writes [
    | [] ↦ returned c
    | chunk ∷ rest ↦
        run_write_handler header_size chunk
          (record c { writes = rest; wire = c.wire ++ chunk ∷ [] })
  ]

  -- The environment's step: the oldest write ends with an error.
  unfoldable fail_write_handler : ℕ → ℕ → Chunk T → Connection D T → Outcome X (Connection D T)
  unfolding post_write_message_header post_write_message_body
  fail_write_handler header_size bytes_transferred (header_chunk h) c =
      post_write_message_header header_size true bytes_transferred c
  fail_write_handler header_size bytes_transferred (body_chunk b) c = post_write_message_body true c

  unfoldable pub fail_write : ℕ → ℕ → Connection D T → Outcome X (Connection D T)
  unfolding fail_write_handler
  fail_write header_size bytes_transferred c = elim c.writes [
    | [] ↦ returned c
    | chunk ∷ rest ↦
        fail_write_handler header_size bytes_transferred chunk (record c { writes = rest })
  ]
