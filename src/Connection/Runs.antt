-- ===== src/Connection/Runs.antt =====
-- Histories of a connection: calls of `sendMessage` and completions of writes, in any order.
use process_manager_service.Prelude.{
  >>=-Returns, List, Outcome, Returns, Returns-mono, [], ap, append-nil, append_assoc, ap₂,
  returned, subst, sym, ℕ, ◌++◌, ◌>>=◌, ◌∙◌, ◌∷◌, ◌≡◌,
}
use process_manager_service.Connection.{Message, Connection}
use process_manager_service.Connection.Write.{send_message, complete_write}
use process_manager_service.Connection.Stream.{
  frames, frames_all, pending, Sound, IsSound, Streams, stream,
}
use process_manager_service.Connection.Sending.{send_message-Streams, complete_write-Streams}

pub data Event (T : Type 0) : Type 0 where
  sends : Message T → Event T
  completes : Event T

-- The messages that a history sends.
unfoldable pub sent : {T : Type 0} → List (Event T) → List (Message T)
sent [] = []
sent (sends m ∷ events) = m ∷ sent events
sent (completes ∷ events) = sent events

module _ {D T X : Type 0} where
  unfoldable pub run_event : ℕ → Event T → Connection D T → Outcome X (Connection D T)
  run_event header_size (sends m) c = send_message m c
  run_event header_size completes c = complete_write header_size c

  unfoldable pub run : ℕ → List (Event T) → Connection D T → Outcome X (Connection D T)
  unfolding run_event
  run header_size [] c = returned c
  run header_size (event ∷ events) c =
      run_event header_size event c >>= λ c'. run header_size events c'

module _ {D T : Type 0} (X : Type 0) (header_size : ℕ) where
  run-Streams :
      (events : List (Event T)) (c : Connection D T)
      → IsSound c
      → Returns (run {X = X} header_size events c) (Streams (stream c ++ frames_all (sent events)))
  unfolding run sent frames_all
  run-Streams [] c s = (s, sym (append-nil (stream c)))
  run-Streams (sends m ∷ events) c s =
      >>=-Returns (send_message {X = X} m c) _ _ _ (send_message-Streams X c m s) λ c' p.
        Returns-mono (run header_size events c') _ _ (run-Streams events c' p.0) λ c'' q.
          (q.0, q.1 ∙ rw p.1 (append_assoc (stream c) (frames m) (frames_all (sent events))))
  run-Streams (completes ∷ events) c s =
      >>=-Returns (complete_write {X = X} header_size c) _ _ _
        (complete_write-Streams X c header_size s)
        λ c' p.
          Returns-mono (run header_size events c') _ _ (run-Streams events c' p.0)
            λ c'' q. (q.0, q.1 ∙ rw p.1)

  -- From a connection with nothing sent or queued, every history returns, and afterwards what has
  -- gone out, followed by what is still to go out, is the headers and bodies of the messages in
  -- the order of the calls of `sendMessage`.
  pub run_lem :
      (events : List (Event T)) (c : Connection D T)
      → c.wire ≡ []
      → c.messages_queue ≡ []
      → c.writes ≡ []
      → Returns
          (run {X = X} header_size events c)
          (λ c'. c'.wire ++ pending c'.writes c'.messages_queue ≡ frames_all (sent events))
  run_lem events c e q w =
      Returns-mono (run {X = X} header_size events c) _ _
        (run-Streams events c
          (subst (Sound c.socket c.sending_in_progress c.messages_queue) (sym w) tt))
        λ c' p. unfold stream in (p.1 ∙ ap (λ s. s ++ frames_all (sent events)) nothing)
    where
      nothing : stream c ≡ []
      nothing = unfold stream pending frames_all in (ap₂ (λ a b. a ++ b) e (ap₂ pending w q))
