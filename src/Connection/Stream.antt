-- ===== src/Connection/Stream.antt =====
-- The stream that a connection is to send: the messages in order, each as its header and, if it has
-- one, its body; what of it is still to go out, and which states of a connection are sound.
use process_manager_service.Prelude.{
  Bool, Bytes, List, Option, [], ap, append-nil, append_assoc, arith, false, length, ltb, none,
  refl, some, sym, true, ◌++◌, ◌<◌, ◌∙◌, ◌∷◌, ◌≡◌,
}
use process_manager_service.Connection.{Message, Chunk, header_chunk, body_chunk, Connection}

abbrev pub is_set : Option Bool → Bool
is_set none = false
is_set (some open_now) = true

module _ {T : Type 0} where
  pub body_frames : Bytes → List (Chunk T)
  body_frames [] = []
  body_frames (b ∷ bs) = body_chunk (b ∷ bs) ∷ []

  -- A message on the wire.
  unfoldable pub frames : Message T → List (Chunk T)
  unfolding body_frames
  frames m = header_chunk m.header ∷ body_frames m.body

  unfoldable pub frames_all : List (Message T) → List (Chunk T)
  frames_all [] = []
  frames_all (m ∷ ms) = frames m ++ frames_all ms

  pub body_frames_some : (b : Bytes) → 0 < length b → body_frames b ≡ body_chunk b ∷ []
  unfolding body_frames
  body_frames_some [] h = absurd (omega arith)
  body_frames_some (x ∷ b) h = refl

  pub body_frames_none : (b : Bytes) → ltb 0 (length b) ≡ false → body_frames b ≡ []
  unfolding body_frames
  body_frames_none [] h = refl
  body_frames_none (x ∷ b) h = absurd (ground arith)

  frames_all-append :
      (xs ys : List (Message T)) → frames_all (xs ++ ys) ≡ frames_all xs ++ frames_all ys
  unfolding frames_all
  frames_all-append [] ys = refl
  frames_all-append (m ∷ xs) ys =
      rw (frames_all-append xs ys) (sym (append_assoc (frames m) (frames_all xs) (frames_all ys)))

  pub frames_all-snoc :
      (xs : List (Message T)) (m : Message T)
      → frames_all (xs ++ m ∷ []) ≡ frames_all xs ++ frames m
  unfolding frames_all
  frames_all-snoc xs m = frames_all-append xs (m ∷ []) ∙ simp append-nil

  -- What is still to go out: the writes that are outstanding and the messages behind them.
  unfoldable pub pending : List (Chunk T) → List (Message T) → List (Chunk T)
  pending [] queue = frames_all queue
  pending (header_chunk h ∷ ws) queue = frames_all queue
  pending (body_chunk b ∷ ws) [] = body_chunk b ∷ []
  pending (body_chunk b ∷ ws) (m ∷ rest) = body_chunk b ∷ frames_all rest

  -- The write is of the header, or of the body, of the message.
  abbrev IsPartOf : Chunk T → Message T → Type 0
  IsPartOf (header_chunk h) m = h ≡ m.header
  IsPartOf (body_chunk b) m = (b ≡ m.body) × (0 < length m.body)

  -- No write is outstanding, or there is one, of a part of the front message, on a socket that is
  -- not null and while a sending is in progress.
  abbrev pub Sound : Option Bool → Bool → List (Message T) → List (Chunk T) → Type 0
  Sound socket sending queue [] = Unit {0}
  Sound socket sending [] (w ∷ []) = ⊥
  Sound socket sending (m ∷ rest) (w ∷ []) =
      IsPartOf w m × (sending ≡ true) × (is_set socket ≡ true)
  Sound socket sending queue (w ∷ v ∷ ws) = ⊥

  pub pending-push :
      (socket : Option Bool) (sending : Bool) (queue : List (Message T)) (ws : List (Chunk T))
      (m : Message T)
      → Sound socket sending queue ws
      → pending ws (queue ++ m ∷ []) ≡ pending ws queue ++ frames m
  unfolding pending
  pending-push socket sending queue [] m s = frames_all-snoc queue m
  pending-push socket sending [] (w ∷ []) m s = absurd s
  pending-push socket sending (x ∷ rest) (header_chunk h ∷ []) m s = frames_all-snoc (x ∷ rest) m
  pending-push socket sending (x ∷ rest) (body_chunk b ∷ []) m s =
      ap (◌∷◌ (body_chunk b)) (frames_all-snoc rest m)
  pending-push socket sending queue (w ∷ v ∷ ws) m s = absurd s

  pub Sound-push :
      (socket : Option Bool) (sending : Bool) (queue : List (Message T)) (ws : List (Chunk T))
      (m : Message T)
      → Sound socket sending queue ws
      → Sound socket sending (queue ++ m ∷ []) ws
  Sound-push socket sending queue [] m s = tt
  Sound-push socket sending [] (w ∷ []) m s = absurd s
  Sound-push socket sending (x ∷ rest) (w ∷ []) m s = s
  Sound-push socket sending queue (w ∷ v ∷ ws) m s = absurd s

module _ {D T : Type 0} where
  abbrev pub IsSound : Connection D T → Type 0
  IsSound c = Sound c.socket c.sending_in_progress c.messages_queue c.writes

  -- What has gone out, and what is still to go out.
  unfoldable pub stream : Connection D T → List (Chunk T)
  stream c = c.wire ++ pending c.writes c.messages_queue

  -- The connection is sound, and its stream is the given one.
  abbrev pub Streams : List (Chunk T) → Connection D T → Type 0
  Streams s c = IsSound c × (stream c ≡ s)
