-- ===== src/Connection/Frame.antt =====
-- What the handlers of a connection leave as it is, and between which reads a message is handled.
use process_manager_service.Prelude.{
  false, ==_iff, Bool-cases, List, leb, true, Bool, IfReturns, >>=-IfReturns, Option, Outcome, [],
  arith, inl, inr, none, refl, some, ℕ, ◌∷◌, ◌≡◌,
}
use process_manager_service.Connection.Reading.{receive_lem}
use process_manager_service.Connection.{ReadOp, header_read, body_read, Message, Connection}
use process_manager_service.Connection.Write.{complete_write, fail_write, send_message}
use process_manager_service.Connection.Read.{receive, fail_read, start_reading_sequence}

module _ {D T X : Type 0} where
  -- If the call returns, then the state of the derived class and the reads are as they were.
  abbrev pub Preserves : Connection D T → Outcome X (Connection D T) → Type 0
  Preserves c h = IfReturns h (λ c'. (c'.derived ≡ c.derived) × (c'.reads ≡ c.reads))

module _ {D T : Type 0} (X : Type 0) (c : Connection D T) where
  pub send_message-Preserves : (m : Message T) → Preserves {X = X} c (send_message m c)
  unfolding send_message
  send_message-Preserves m = ground arith

  pub complete_write-Preserves :
      (header_size : ℕ) → Preserves {X = X} c (complete_write header_size c)
  unfolding complete_write
  complete_write-Preserves header_size = ground arith

  pub fail_write-Preserves : (header_size n : ℕ) → Preserves {X = X} c (fail_write header_size n c)
  unfolding fail_write
  fail_write-Preserves header_size n = ground arith

-- At most one read is outstanding, and it is of a header: so it is between two messages.
abbrev pub HeaderReads : List ReadOp → Type 0
HeaderReads [] = Unit {0}
HeaderReads (header_read ∷ []) = Unit {0}
HeaderReads (read ∷ reads) = ⊥

module _ {D T : Type 0} (X : Type 0) where
  fail_read_at :
      (c : Connection D T) (socket : Option Bool) (reads : List ReadOp)
      → HeaderReads reads
      → IfReturns
          (fail_read {X = X} (record c { socket = socket; reads = reads }))
          (λ c'. HeaderReads c'.reads × (c'.derived ≡ c.derived))
  unfolding fail_read
  fail_read_at c socket [] r = (tt, refl)
  fail_read_at c none (header_read ∷ []) r = tt
  fail_read_at c (some true) (header_read ∷ []) r = (tt, refl)
  fail_read_at c (some false) (header_read ∷ []) r = (tt, refl)
  fail_read_at c socket (header_read ∷ read ∷ reads) r = absurd r
  fail_read_at c socket (body_read n ∷ reads) r = absurd r

  pub fail_read-HeaderReads :
      (c : Connection D T)
      → HeaderReads c.reads
      → IfReturns (fail_read {X = X} c) (λ c'. HeaderReads c'.reads × (c'.derived ≡ c.derived))
  fail_read-HeaderReads c r = fail_read_at c c.socket c.reads r

module _ {D T X : Type 0} (P : D → Type 0) (header_size : ℕ) (unset : T)
    (handle : Option (Message T) → Connection D T → Outcome X (Connection D T))
    (m : Message T) where
  abbrev Between : Connection D T → Type 0
  Between c = HeaderReads c.reads × P c.derived

  start-Between :
      (socket : Option Bool) (c : Connection D T)
      → c.reads ≡ []
      → P c.derived
      → IfReturns (start_reading_sequence {X = X} unset true (record c { socket = socket })) Between
  unfolding start_reading_sequence
  start-Between none c e h = tt
  start-Between (some open_now) c e h = (rw e tt, h)

  receive_at :
      (c : Connection D T) (socket : Option Bool) (buffer : Option (Message T))
      (reads : List ReadOp)
      → HeaderReads reads
      → P c.derived
      → IfReturns
          (handle (some m) (record c { socket = socket; incoming_message = none; reads = [] }))
          (λ c1. (c1.reads ≡ []) × P c1.derived)
      → IfReturns
          (receive header_size unset true handle m
            (record c { socket = socket; incoming_message = buffer; reads = reads }))
          Between
  unfolding receive
  receive_at c socket buffer [] r h handled = (tt, h)
  receive_at c socket none (header_read ∷ []) r h handled =
      rw ((==_iff header_size header_size).1 refl) tt
  receive_at c none (some b) (header_read ∷ []) r h handled =
      rw ((==_iff header_size header_size).1 refl) (elim (Bool-cases (leb m.header.size 0)) [
        | inl empty ↦ rw empty (tt, h)
        | inr some_body ↦ rw some_body tt
      ])
  receive_at c (some open_now) (some b) (header_read ∷ []) r h handled =
      elim (Bool-cases (leb m.header.size 0)) [
        | inl empty ↦ rw ((==_iff header_size header_size).1 refl) (rw empty (tt, h))
        | inr some_body ↦
            rw (receive_lem header_size unset true handle c b open_now m (ground arith)) (
              >>=-IfReturns
                (handle (some m)
                  (record c { socket = some open_now; incoming_message = none; reads = [] }))
                _ _ Between handled λ c1 (e, p). start-Between c1.socket c1 e p)
      ]
  receive_at c socket buffer (header_read ∷ read ∷ reads) r h handled = absurd r
  receive_at c socket buffer (body_read n ∷ reads) r h handled = absurd r

  -- If the handler of a message that arrives between two messages adds no read, then the
  -- connection is between two messages afterwards, and its derived state is as it was or as the handler left it.
  pub receive-Between :
      (c : Connection D T)
      → HeaderReads c.reads
      → P c.derived
      → IfReturns
          (handle (some m) (record c { incoming_message = none; reads = [] }))
          (λ c1. (c1.reads ≡ []) × P c1.derived)
      → IfReturns (receive header_size unset true handle m c) Between
  receive-Between c r h handled = receive_at c c.socket c.incoming_message c.reads r h handled
