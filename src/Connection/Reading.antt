-- ===== src/Connection/Reading.antt =====
-- What the derived class is handed, and when reading goes on.
use process_manager_service.Prelude.{
  ==_iff, Bool, Option, Outcome, [], arith, false, leb, none, refl, returned, some, true, ℕ, ◌<◌,
  ◌==◌, ◌>>=◌, ◌∷◌, ◌≡◌,
}
use process_manager_service.Connection.{MessageHeader, Message, header_read, Connection}
use process_manager_service.Connection.Read.{start_reading_sequence, receive_header, receive}

-- The connection waits for a header, on a socket that is not null.
abbrev pub waiting : {D T : Type 0} → Connection D T → Message T → Bool → Connection D T
waiting c buffer open_now = record c {
  socket = some open_now;
  incoming_message = some buffer;
  reads = header_read ∷ [];
}

module _ {D T X : Type 0} (header_size : ℕ) (unset : T) (allocated : Bool)
    (handle : Option (Message T) → Connection D T → Outcome X (Connection D T)) (c : Connection D T)
    (buffer : Message T) (open_now : Bool) where
  -- A connection that waits for a header: a message whose header announces a body that is not
  -- empty is handed on whole, its header and its body as they arrived, with no buffer and no read
  -- held; then, if the handler returns, reading starts again.
  pub receive_lem :
      (m : Message T)
      → 0 < m.header.size
      → receive header_size unset allocated handle m (waiting c buffer open_now) ≡ (
          handle (some m) (record c { socket = some open_now; incoming_message = none; reads = [] })
          >>= start_reading_sequence unset allocated)
  unfolding receive
  receive_lem m some_body =
      let whole : (header_size == header_size) ≡ true = (==_iff header_size header_size).1 refl in
      let not_empty : leb m.header.size 0 ≡ false = ground arith in rw (whole, not_empty)

  -- A header that announces an empty body is the last thing that the connection reads: no read is
  -- outstanding afterwards, the socket stays as it was, and a message that arrives later is not
  -- handed on.
  pub receive_empty_body :
      (h : MessageHeader T) (later : Message T)
      → h.size ≡ 0
      → (receive_header {X = X} header_size h (waiting c buffer open_now)
          >>= receive header_size unset allocated handle later)
        ≡ returned (record c {
          socket = some open_now;
          incoming_message = some (record buffer { header = h });
          reads = [];
        })
  unfolding receive
  receive_empty_body h later empty =
      let whole : (header_size == header_size) ≡ true = (==_iff header_size header_size).1 refl in
      let is_empty : leb h.size 0 ≡ true = ground arith in rw (whole, is_empty)
