-- ===== src/Connection/Drain.antt =====
-- Sending ends: with enough completions everything that is queued goes out.
use process_manager_service.Prelude.{
  ==_iff, All, Bool, List, [], ap, append-nil, append_assoc, arith, false, length, ltb, refl,
  returned, some, sym, true, ℕ, ◌++◌, ◌<◌, ◌==◌, ◌∙◌, ◌∷◌, ◌≡◌,
}
use process_manager_service.Connection.{Message, Chunk, header_chunk, body_chunk, Connection}
use process_manager_service.Connection.Write.{complete_write}
use process_manager_service.Connection.Stream.{frames, frames_all, body_frames_some}
use process_manager_service.Connection.Runs.{Event, completes, run}

-- Two completions for each message.
abbrev pub completions : {T : Type 0} → List (Message T) → List (Event T)
completions [] = []
completions (m ∷ ms) = completes ∷ completes ∷ completions ms

module _ {D T : Type 0} where
  -- A sending of the queue is under way: the header of its front message is being written.
  abbrev pub writing_header : Connection D T → Bool → Message T → List (Message T) → Connection D T
  writing_header c open_now m rest = record c {
    socket = some open_now;
    sending_in_progress = true;
    messages_queue = m ∷ rest;
    writes = header_chunk m.header ∷ [];
  }

  -- Nothing is queued and no sending is in progress.
  abbrev pub idle : Connection D T → Bool → List (Chunk T) → Connection D T
  idle c open_now done = record c {
    socket = some open_now;
    sending_in_progress = false;
    messages_queue = [];
    writes = [];
    wire = done;
  }

module _ {T : Type 0} where
  pub frames_wire :
      (done : List (Chunk T)) (m : Message T) (rest : List (Message T))
      → 0 < length m.body
      → ((done ++ header_chunk m.header ∷ []) ++ body_chunk m.body ∷ []) ++ frames_all rest
        ≡ done ++ frames_all (m ∷ rest)
  unfolding frames_all frames
  frames_wire done m rest h = rw (body_frames_some m.body h) (simp append_assoc)

module _ {D T : Type 0} (X : Type 0) (header_size : ℕ) (open_now : Bool) where
  pub header_complete :
      (c : Connection D T) (m : Message T) (rest : List (Message T))
      → 0 < length m.body
      → complete_write {X = X} header_size (writing_header c open_now m rest)
        ≡ returned (record (writing_header c open_now m rest) {
          writes = body_chunk m.body ∷ [];
          wire = c.wire ++ header_chunk m.header ∷ [];
        })
  unfolding complete_write
  header_complete c m rest h =
      let whole : (header_size == header_size) ≡ true = (==_iff header_size header_size).1 refl in
      let some_body : ltb 0 (length m.body) ≡ true = ground arith in rw (whole, some_body)

  -- From the moment when the header of the front message is being written, if no message has an
  -- empty body, two completions for each message send the whole queue: the headers and bodies go
  -- out in order, the queue is empty, and no sending is in progress.
  pub run_completions :
      (c : Connection D T) (m : Message T) (rest : List (Message T))
      → All (λ n. 0 < length n.body) (m ∷ rest)
      → run {X = X} header_size (completions (m ∷ rest)) (writing_header c open_now m rest)
        ≡ returned (idle c open_now (c.wire ++ frames_all (m ∷ rest)))
  unfolding run complete_write frames_all
  run_completions c m [] h =
      rw (header_complete c m [] h.0)
        (ap (λ w. returned (idle c open_now w)) (sym (append-nil _) ∙ frames_wire c.wire m [] h.0))
  run_completions c m (x ∷ rest) h =
      let sent_front = (c.wire ++ header_chunk m.header ∷ []) ++ body_chunk m.body ∷ [] in
      rw (header_complete c m (x ∷ rest) h.0) (
        run_completions (record c { wire = sent_front }) x rest h.1
        ∙ ap (λ w. returned (idle c open_now w)) (frames_wire c.wire m (x ∷ rest) h.0))
