-- ===== src/Connection/Sending.antt =====
-- `sendMessage` and the completions of writes keep the stream.
use process_manager_service.Prelude.{
  ==_iff, Bool, Bool-cases, List, Option, Returns, Returns-mono, [], append_assoc, arith, false,
  inl, inr, length, ltb, none, refl, some, subst, sym, true, ℕ, ◌++◌, ◌<◌, ◌∙◌, ◌∷◌, ◌≡◌,
}
use process_manager_service.Connection.{Message, Chunk, header_chunk, body_chunk, Connection}
use process_manager_service.Connection.Write.{
  write_message_header, pop_empty_message, post_write_message_header, post_write_message_body,
  send_message, complete_write,
}
use process_manager_service.Connection.Stream.{
  frames, frames_all, body_frames_some, body_frames_none, frames_all-snoc, pending, Sound,
  pending-push, Sound-push, IsSound, stream, Streams,
}

module _ {D T : Type 0} (X : Type 0) (c : Connection D T) where
  abbrev at : Option Bool → Bool → List (Message T) → List (Chunk T) → Connection D T
  at socket sending queue ws = record c {
    socket = socket;
    sending_in_progress = sending;
    messages_queue = queue;
    writes = ws;
  }

  start :
      (queue : List (Message T)) (m : Message T)
      → Returns
          (write_message_header {X = X} (at (some true) true (queue ++ m ∷ []) []))
          (Streams (c.wire ++ frames_all (queue ++ m ∷ [])))
  unfolding write_message_header stream pending
  start [] m = ((refl, refl, refl), refl)
  start (x ∷ rest) m = ((refl, refl, refl), refl)

  pushed :
      (socket : Option Bool) (sending : Bool) (queue : List (Message T)) (ws : List (Chunk T))
      (m : Message T)
      → Sound socket sending queue ws
      → Streams
          (stream (at socket sending queue ws) ++ frames m)
          (at socket sending (queue ++ m ∷ []) ws)
  unfolding stream
  pushed socket sending queue ws m s = (
    Sound-push socket sending queue ws m s,
    rw (pending-push socket sending queue ws m s)
        (sym (append_assoc c.wire (pending ws queue) (frames m))),
  )

  start_stream :
      (queue : List (Message T)) (m : Message T)
      → c.wire ++ frames_all (queue ++ m ∷ []) ≡ stream (at (some true) false queue []) ++ frames m
  unfolding stream pending
  start_stream queue m =
      rw (frames_all-snoc queue m) (sym (append_assoc c.wire (frames_all queue) (frames m)))

  send_at :
      (socket : Option Bool) (sending : Bool) (queue : List (Message T)) (ws : List (Chunk T))
      (m : Message T)
      → Sound socket sending queue ws
      → Returns
          (send_message {X = X} m (at socket sending queue ws))
          (Streams (stream (at socket sending queue ws) ++ frames m))
  unfolding send_message
  send_at none sending queue ws m s = pushed none sending queue ws m s
  send_at (some false) sending queue ws m s = pushed (some false) sending queue ws m s
  send_at (some true) true queue ws m s = pushed (some true) true queue ws m s
  send_at (some true) false queue [] m s =
      Returns-mono (write_message_header {X = X} (at (some true) true (queue ++ m ∷ []) [])) _ _
        (start queue m) λ c' p. (p.0, p.1 ∙ start_stream queue m)
  send_at (some true) false [] (w ∷ []) m s = absurd s
  send_at (some true) false (x ∷ rest) (w ∷ []) m s = absurd (cc s.1)
  send_at (some true) false queue (w ∷ v ∷ ws) m s = absurd s

  -- The front message is popped, and the next one is started if there is one.
  popped :
      (open_now : Bool) (m : Message T) (rest : List (Message T)) (done : List (Chunk T))
      → Returns
          (pop_empty_message {X = X}
            (record (at (some open_now) true (m ∷ rest) []) { wire = done }))
          (Streams (done ++ frames_all rest))
  unfolding pop_empty_message stream pending
  popped open_now m [] done = (tt, refl)
  popped open_now m (x ∷ rest) done = ((refl, refl, refl), refl)

  body_popped :
      (open_now : Bool) (m : Message T) (rest : List (Message T)) (done : List (Chunk T))
      → Returns
          (post_write_message_body {X = X} false
            (record (at (some open_now) true (m ∷ rest) []) { wire = done }))
          (Streams (done ++ frames_all rest))
  unfolding post_write_message_body stream pending
  body_popped open_now m [] done = (tt, refl)
  body_popped open_now m (x ∷ rest) done = ((refl, refl, refl), refl)

  body_stream :
      (open_now : Bool) (m : Message T) (rest : List (Message T)) (done : List (Chunk T))
      → 0 < length m.body
      → stream (record (at (some open_now) true (m ∷ rest) (body_chunk m.body ∷ [])) {
        wire = done ++ header_chunk m.header ∷ [];
      })
        ≡ done ++ frames_all (m ∷ rest)
  unfolding stream pending frames_all frames
  body_stream open_now m rest done h =
      append_assoc done (header_chunk m.header ∷ []) (body_chunk m.body ∷ frames_all rest)
      ∙ rw (body_frames_some m.body h)

  empty_stream :
      (m : Message T) (rest : List (Message T)) (done : List (Chunk T))
      → ltb 0 (length m.body) ≡ false
      → (done ++ header_chunk m.header ∷ []) ++ frames_all rest ≡ done ++ frames_all (m ∷ rest)
  unfolding frames_all frames
  empty_stream m rest done h =
      append_assoc done (header_chunk m.header ∷ []) (frames_all rest)
      ∙ rw (body_frames_none m.body h)

  header_done :
      (header_size : ℕ) (open_now : Bool) (m : Message T) (rest : List (Message T))
      (done : List (Chunk T))
      → Returns
          (post_write_message_header {X = X} header_size false header_size
            (record (at (some open_now) true (m ∷ rest) []) {
              wire = done ++ header_chunk m.header ∷ [];
            }))
          (Streams (done ++ frames_all (m ∷ rest)))
  unfolding post_write_message_header
  header_done header_size open_now m rest done =
      rw ((==_iff header_size header_size).1 refl) (elim (Bool-cases (ltb 0 (length m.body))) [
        | inl some_body ↦
            rw some_body
              (((refl, ground arith), refl, refl), body_stream open_now m rest done (ground arith))
        | inr no_body ↦ rw no_body (
            Returns-mono
              (pop_empty_message {X = X} (record (at (some open_now) true (m ∷ rest) []) {
                wire = done ++ header_chunk m.header ∷ [];
              }))
              _ _ (popped open_now m rest (done ++ header_chunk m.header ∷ []))
              λ c' p. (p.0, p.1 ∙ empty_stream m rest done no_body))
      ])

  complete_at :
      (header_size : ℕ) (socket : Option Bool) (sending : Bool) (queue : List (Message T))
      (ws : List (Chunk T))
      → Sound socket sending queue ws
      → Returns
          (complete_write {X = X} header_size (at socket sending queue ws))
          (Streams (stream (at socket sending queue ws)))
  unfolding complete_write stream pending
  complete_at header_size socket sending queue [] s = (tt, refl)
  complete_at header_size socket sending [] (w ∷ []) s = absurd s
  complete_at header_size none sending (m ∷ rest) (w ∷ []) s = absurd (cc s.2)
  complete_at header_size (some o) false (m ∷ rest) (w ∷ []) s = absurd (cc s.1)
  complete_at header_size (some o) true (m ∷ rest) (header_chunk h ∷ []) s =
      subst
        (λ x.
          Returns
            (complete_write {X = X} header_size (at (some o) true (m ∷ rest) (header_chunk x ∷ [])))
            (Streams (c.wire ++ frames_all (m ∷ rest))))
        (sym s.0) (header_done header_size o m rest c.wire)
  complete_at header_size (some o) true (m ∷ rest) (body_chunk b ∷ []) s =
      Returns-mono
        (post_write_message_body {X = X} false
          (record (at (some o) true (m ∷ rest) []) { wire = c.wire ++ body_chunk b ∷ [] }))
        _ _ (body_popped o m rest (c.wire ++ body_chunk b ∷ []))
        λ c' p. (p.0, p.1 ∙ append_assoc c.wire (body_chunk b ∷ []) (frames_all rest))
  complete_at header_size socket sending queue (w ∷ v ∷ ws) s = absurd s

module _ {D T : Type 0} (X : Type 0) (c : Connection D T) where
  -- `sendMessage` on a sound connection returns, leaves it sound, and adds the message, as its
  -- header and its body if that is not empty, to the end of the stream; so also on a null socket,
  -- on a closed one, and while a sending is in progress.
  pub send_message-Streams :
      (m : Message T)
      → IsSound c
      → Returns (send_message {X = X} m c) (Streams (stream c ++ frames m))
  send_message-Streams m s =
      send_at X c c.socket c.sending_in_progress c.messages_queue c.writes m s

  -- When a write of a sound connection completes, its handler returns, leaves the connection sound,
  -- and changes nothing of the stream: no part of a message is lost, repeated or overtaken.
  pub complete_write-Streams :
      (header_size : ℕ)
      → IsSound c
      → Returns (complete_write {X = X} header_size c) (Streams (stream c))
  complete_write-Streams header_size s =
      complete_at X c header_size c.socket c.sending_in_progress c.messages_queue c.writes s
