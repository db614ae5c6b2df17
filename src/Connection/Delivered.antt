-- ===== src/Connection/Delivered.antt =====
-- What one connection writes, as another reads it. TCP delivers what has gone out, in order.
use process_manager_service.Prelude.{
  All, List, Option, Outcome, [], ap, ap₂, append-nil, arith, Returns, Bool, >>=-assoc, length,
  none, refl, returned, some, subst, sym, true, ℕ, ◌++◌, ◌<◌, ◌>>=◌, ◌∙◌, ◌∷◌, ◌≡◌,
}
use process_manager_service.Connection.{Message, Chunk, header_chunk, body_chunk, Connection}
use process_manager_service.Connection.Read.{
  empty_message, start_reading_sequence, receive_header, receive_body, receive,
}
use process_manager_service.Connection.Reading.{waiting, receive_lem}
use process_manager_service.Connection.Stream.{body_frames_some, frames, frames_all, pending}
use process_manager_service.Connection.Runs.{Event, run, run_lem, sent}

module _ {D T X : Type 0} (header_size : ℕ) (unset : T)
    (handle : Option (Message T) → Connection D T → Outcome X (Connection D T)) where
  -- The headers and bodies arrive, one after the other; each fills the read that waits for it.
  unfoldable pub deliver : List (Chunk T) → Connection D T → Outcome X (Connection D T)
  unfolding receive_header receive_body
  deliver [] c = returned c
  deliver (header_chunk h ∷ chunks) c = receive_header header_size h c >>= deliver chunks
  deliver (body_chunk b ∷ chunks) c = receive_body unset true handle b c >>= deliver chunks

-- A message whose header announces its body, which is not empty.
abbrev pub IsFramed : {T : Type 0} → Message T → Type 0
IsFramed m = (0 < length m.body) × (m.header.size ≡ length m.body)

-- What a derived class becomes that is handed the messages one by one.
abbrev pub handed : {D T : Type 0} → (Message T → D → D) → List (Message T) → D → D
handed f [] d = d
handed f (m ∷ ms) d = handed f ms (f m d)

-- A `handleReceivedMessage` that works on its own members.
abbrev pub on_derived :
    {D T X : Type 0}
    → (Message T → D → D)
    → Option (Message T)
    → Connection D T
    → Outcome X (Connection D T)
on_derived f none c = returned c
on_derived f (some m) c = returned (record c { derived = f m c.derived })

module _ {D T X : Type 0} (header_size : ℕ) (unset : T)
    (handle : Option (Message T) → Connection D T → Outcome X (Connection D T)) where
  -- The header and the body of a message arrive as the message does, in one step.
  pub deliver-frames :
      (m : Message T) (chunks : List (Chunk T)) (c : Connection D T)
      → 0 < length m.body
      → deliver header_size unset handle (frames m ++ chunks) c
        ≡ (receive header_size unset true handle m c >>= deliver header_size unset handle chunks)
  unfolding deliver frames receive
  deliver-frames m chunks c some_body =
      ap (λ fs. deliver {X = X} header_size unset handle (header_chunk m.header ∷ (fs ++ chunks)) c)
        (body_frames_some m.body some_body)
      ∙ sym (
          >>=-assoc (receive_header {X = X} header_size m.header c)
            (receive_body unset true handle m.body) (deliver header_size unset handle chunks))

module _ {D T X : Type 0} (header_size : ℕ) (unset : T) (f : Message T → D → D)
    (open_now : Bool) where
  deliver-frames_all :
      (ms : List (Message T)) (c : Connection D T)
      → All IsFramed ms
      → deliver {X = X} header_size unset
          (on_derived f)
          (frames_all ms)
          (waiting c (empty_message unset) open_now)
        ≡ returned
            (waiting (record c { derived = handed f ms c.derived }) (empty_message unset) open_now)
  unfolding deliver frames_all start_reading_sequence
  deliver-frames_all [] c framed = refl
  deliver-frames_all (m ∷ ms) c (framed, rest) =
      let handle : Option (Message T) → Connection D T → Outcome X (Connection D T) =
        on_derived f in
      deliver-frames header_size unset handle m (frames_all ms)
        (waiting c (empty_message unset) open_now) framed.0
      ∙ ap (λ h. h >>= deliver {X = X} header_size unset handle (frames_all ms))
          (receive_lem header_size unset true handle c (empty_message unset) open_now m
            (omega arith))
      ∙ deliver-frames_all ms (record c { derived = f m c.derived }) rest

-- When a history that began with nothing sent or queued has written everything, then it has written
-- the headers and bodies of its messages.
pub wire_all_out :
    {D T : Type 0} (X : Type 0) (header_size : ℕ) (events : List (Event T)) (c c' : Connection D T)
    → c.wire ≡ []
    → c.messages_queue ≡ []
    → c.writes ≡ []
    → run {X = X} header_size events c ≡ returned c'
    → c'.messages_queue ≡ []
    → c'.writes ≡ []
    → c'.wire ≡ frames_all (sent events)
wire_all_out X header_size events c c' wire queue writes runs queue_done writes_done =
    let went : c'.wire ++ pending c'.writes c'.messages_queue ≡ frames_all (sent events) =
      subst
        (λ h.
          Returns h
            (λ c2. c2.wire ++ pending c2.writes c2.messages_queue ≡ frames_all (sent events)))
        runs (run_lem X header_size events c wire queue writes) in
    let nothing_left : pending c'.writes c'.messages_queue ≡ [] =
      unfold pending frames_all in (ap₂ pending writes_done queue_done) in
    sym (append-nil c'.wire) ∙ ap (λ ps. c'.wire ++ ps) (sym nothing_left) ∙ went

-- One connection sends: from nothing sent or queued, any history of sends and of completed writes
-- after which everything has gone out. Another, which waits for a header, reads what has gone out. If
-- the header of every message announces its body, and no body is empty, then the reading class is
-- handed exactly the messages that were sent, in the order of the calls of `sendMessage`, and waits
-- for a header again.
pub deliver-run :
    {D D' T X Y : Type 0} (header_size : ℕ) (unset : T) (f : Message T → D' → D') (open_now : Bool)
    (events : List (Event T)) (c c' : Connection D T) (reader : Connection D' T)
    → c.wire ≡ []
    → c.messages_queue ≡ []
    → c.writes ≡ []
    → run {X = X} header_size events c ≡ returned c'
    → c'.messages_queue ≡ []
    → c'.writes ≡ []
    → All IsFramed (sent events)
    → deliver {X = Y} header_size unset
        (on_derived f)
        c'.wire
        (waiting reader (empty_message unset) open_now)
      ≡ returned (
          waiting
            (record reader { derived = handed f (sent events) reader.derived })
            (empty_message unset)
            open_now)
deliver-run {X} header_size unset f open_now events c c' reader wire queue writes runs queue_done
      writes_done framed =
    rw (wire_all_out X header_size events c c' wire queue writes runs queue_done writes_done)
      (deliver-frames_all header_size unset f open_now (sent events) reader framed)
