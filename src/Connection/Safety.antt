-- ===== src/Connection/Safety.antt =====
-- That the handlers of a connection do not run into undefined behaviour.
use process_manager_service.Prelude.{
  ==_iff, Bool, Bool-cases, IfReturns, List, Option, Outcome, Returns-Safely, Safely, >>=-Safely,
  [], arith, false, inl, inr, leb, none, refl, some, true, ℕ, ◌∷◌, ◌≡◌,
}
use process_manager_service.Connection.{
  Message, Chunk, header_chunk, body_chunk, ReadOp, header_read, body_read, Connection,
}
use process_manager_service.Connection.Write.{complete_write, fail_write, send_message}
use process_manager_service.Connection.Read.{receive, fail_read, start_reading_sequence}
use process_manager_service.Connection.Reading.{receive_lem}
use process_manager_service.Connection.Stream.{is_set, Sound, IsSound}
use process_manager_service.Connection.Sending.{send_message-Streams, complete_write-Streams}

abbrev has_buffer {ℓ} : {A : Type ℓ} → Option A → Bool
has_buffer none = false
has_buffer (some a) = true

-- No read is outstanding, or one of a header, into a buffer.
abbrev pub CanRead : {T : Type 0} → Option (Message T) → List ReadOp → Type 0
CanRead buffer [] = Unit {0}
CanRead buffer (header_read ∷ []) = has_buffer buffer ≡ true
CanRead buffer (read ∷ reads) = ⊥

-- The connection is sound, its socket is not null, and it stands between two messages.
abbrev pub IsSafe : {D T : Type 0} → Connection D T → Type 0
IsSafe c = IsSound c × (is_set c.socket ≡ true) × CanRead c.incoming_message c.reads

-- What reading depends on is as it was.
abbrev Reads : {D T : Type 0} → Connection D T → Connection D T → Type 0
Reads c c' =
    (c'.socket ≡ c.socket) × (c'.incoming_message ≡ c.incoming_message) × (c'.reads ≡ c.reads)

module _ {T : Type 0} where
  -- Soundness asks only that the socket is not null.
  Sound-open :
      (before after sending : Bool) (queue : List (Message T)) (writes : List (Chunk T))
      → Sound (some before) sending queue writes
      → Sound (some after) sending queue writes
  Sound-open before after sending queue [] s = tt
  Sound-open before after sending [] (w ∷ []) s = absurd s
  Sound-open before after sending (m ∷ queue) (w ∷ []) s = s
  Sound-open before after sending queue (w ∷ v ∷ ws) s = absurd s

module _ {D T : Type 0} (X : Type 0) where
  Reads-IsSafe : (c c' : Connection D T) → IsSafe c → IsSound c' → Reads c c' → IsSafe c'
  Reads-IsSafe c c' (sound, set, can) sound' (es, ei, er) = (sound', rw es set, rw (ei, er) can)

  send_message-Reads :
      (m : Message T) (c : Connection D T) → IfReturns (send_message {X = X} m c) (Reads c)
  unfolding send_message
  send_message-Reads m c = ground arith

  pub send_message-IsSafe :
      (m : Message T) (c : Connection D T) → IsSafe c → Safely (send_message {X = X} m c) IsSafe
  send_message-IsSafe m c safe =
      Returns-Safely (send_message {X = X} m c) _ (Reads c) IsSafe
        (send_message-Streams X c m safe.0) (send_message-Reads m c)
        λ c' s r. Reads-IsSafe c c' safe s.0 r

  complete_write-Reads :
      (header_size : ℕ) (c : Connection D T)
      → IfReturns (complete_write {X = X} header_size c) (Reads c)
  unfolding complete_write
  complete_write-Reads header_size c = ground arith

  pub complete_write-IsSafe :
      (header_size : ℕ) (c : Connection D T)
      → IsSafe c
      → Safely (complete_write {X = X} header_size c) IsSafe
  complete_write-IsSafe header_size c safe =
      Returns-Safely (complete_write {X = X} header_size c) _ (Reads c) IsSafe
        (complete_write-Streams X c header_size safe.0) (complete_write-Reads header_size c)
        λ c' s r. Reads-IsSafe c c' safe s.0 r

  fail_write_at :
      (header_size n : ℕ) (c : Connection D T) (socket : Option Bool) (sending : Bool)
      (queue : List (Message T)) (writes : List (Chunk T))
      → Sound socket sending queue writes
      → is_set socket ≡ true
      → CanRead c.incoming_message c.reads
      → Safely
          (fail_write {X = X} header_size n (record c {
            socket = socket;
            sending_in_progress = sending;
            messages_queue = queue;
            writes = writes;
          }))
          IsSafe
  unfolding fail_write
  fail_write_at header_size n c socket sending queue [] sound set can = (sound, set, can)
  fail_write_at header_size n c none sending queue (w ∷ ws) sound set can = absurd (ground arith)
  fail_write_at header_size n c (some true) sending [] (w ∷ []) sound set can = absurd sound
  fail_write_at header_size n c (some false) sending [] (w ∷ []) sound set can = absurd sound
  fail_write_at header_size n c (some true) sending (m ∷ queue) (header_chunk h ∷ []) sound set
        can =
      (tt, refl, can)
  fail_write_at header_size n c (some false) sending (m ∷ queue) (header_chunk h ∷ []) sound set
        can =
      (tt, refl, can)
  fail_write_at header_size n c (some true) sending (m ∷ queue) (body_chunk b ∷ []) sound set can =
      (tt, refl, can)
  fail_write_at header_size n c (some false) sending (m ∷ queue) (body_chunk b ∷ []) sound set can =
      (tt, refl, can)
  fail_write_at header_size n c (some open_now) sending queue (w ∷ v ∷ ws) sound set can =
      absurd sound

  pub fail_write-IsSafe :
      (header_size n : ℕ) (c : Connection D T)
      → IsSafe c
      → Safely (fail_write {X = X} header_size n c) IsSafe
  fail_write-IsSafe header_size n c (sound, set, can) =
      fail_write_at header_size n c c.socket c.sending_in_progress c.messages_queue c.writes sound
        set can

  fail_read_at :
      (c : Connection D T) (socket : Option Bool) (reads : List ReadOp)
      → Sound socket c.sending_in_progress c.messages_queue c.writes
      → is_set socket ≡ true
      → CanRead c.incoming_message reads
      → Safely (fail_read {X = X} (record c { socket = socket; reads = reads })) IsSafe
  unfolding fail_read
  fail_read_at c socket [] sound set can = (sound, set, can)
  fail_read_at c none (header_read ∷ []) sound set can = absurd (ground arith)
  fail_read_at c (some true) (header_read ∷ []) sound set can =
      (Sound-open true false c.sending_in_progress c.messages_queue c.writes sound, refl, tt)
  fail_read_at c (some false) (header_read ∷ []) sound set can = (sound, refl, tt)
  fail_read_at c socket (header_read ∷ read ∷ reads) sound set can = absurd can
  fail_read_at c socket (body_read n ∷ reads) sound set can = absurd can

  pub fail_read-IsSafe : (c : Connection D T) → IsSafe c → Safely (fail_read {X = X} c) IsSafe
  fail_read-IsSafe c (sound, set, can) = fail_read_at c c.socket c.reads sound set can

-- What a handler of a message leaves: a sound connection on a socket that is not null, with no read.
abbrev pub IsHandled : {D T : Type 0} → Connection D T → Type 0
IsHandled c = IsSound c × (is_set c.socket ≡ true) × (c.reads ≡ [])

module _ {D T X : Type 0} (header_size : ℕ) (unset : T)
    (handle : Option (Message T) → Connection D T → Outcome X (Connection D T))
    (m : Message T) where
  start_at :
      (socket : Option Bool) (c : Connection D T)
      → Sound socket c.sending_in_progress c.messages_queue c.writes
      → is_set socket ≡ true
      → c.reads ≡ []
      → Safely (start_reading_sequence {X = X} unset true (record c { socket = socket })) IsSafe
  unfolding start_reading_sequence
  start_at none c sound set e = absurd (ground arith)
  start_at (some open_now) c sound set e = (sound, refl, rw e refl)

  receive_at :
      (c : Connection D T) (socket : Option Bool) (buffer : Option (Message T))
      (reads : List ReadOp)
      → Sound socket c.sending_in_progress c.messages_queue c.writes
      → is_set socket ≡ true
      → CanRead buffer reads
      → Safely
          (handle (some m) (record c { socket = socket; incoming_message = none; reads = [] }))
          IsHandled
      → Safely
          (receive header_size unset true handle m
            (record c { socket = socket; incoming_message = buffer; reads = reads }))
          IsSafe
  unfolding receive
  receive_at c socket buffer [] sound set can handled = (sound, set, tt)
  receive_at c none buffer (header_read ∷ []) sound set can handled = absurd (ground arith)
  receive_at c (some open_now) none (header_read ∷ []) sound set can handled = absurd (ground arith)
  receive_at c (some open_now) (some b) (header_read ∷ []) sound set can handled =
      elim (Bool-cases (leb m.header.size 0)) [
        | inl empty ↦ rw ((==_iff header_size header_size).1 refl) (rw empty (sound, refl, tt))
        | inr some_body ↦
            rw (receive_lem header_size unset true handle c b open_now m (ground arith)) (
              >>=-Safely
                (handle (some m)
                  (record c { socket = some open_now; incoming_message = none; reads = [] }))
                _ IsHandled IsSafe handled
                λ c1 (sound1, set1, e1). start_at c1.socket c1 sound1 set1 e1)
      ]
  receive_at c socket buffer (header_read ∷ read ∷ reads) sound set can handled = absurd can
  receive_at c socket buffer (body_read n ∷ reads) sound set can handled = absurd can

  pub receive-IsSafe :
      (c : Connection D T)
      → IsSafe c
      → Safely (handle (some m) (record c { incoming_message = none; reads = [] })) IsHandled
      → Safely (receive header_size unset true handle m c) IsSafe
  receive-IsSafe c (sound, set, can) handled =
      receive_at c c.socket c.incoming_message c.reads sound set can handled
