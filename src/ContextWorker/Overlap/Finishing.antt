-- ===== src/ContextWorker/Overlap/Finishing.antt =====
-- That the handlers that overlap come to their ends.
use process_manager_service.Prelude.{
  Bytes, List, Option, Outcome, [], Returns, Returns-result, append-nil, ap, length, refl, returned,
  subst, true, ℕ, ◌>>=◌, ◌∙◌, ◌∷◌, ◌≡◌,
}
use mathlib.Core.List.{Perm}
use process_manager_service.MessageEventsCache
use process_manager_service.MongoModulesCollection.{Document, ModuleRecord, QueryException}
use process_manager_service.ContextWorker.{Environment, ContextWorker, run}
use process_manager_service.ContextWorker.Reads.{all_datagrams}
use process_manager_service.ContextWorker.Serves.{
  IsHealthy, Serving, handle_parsed-Serving, run-Serving,
}
use process_manager_service.ContextWorker.Overlap.{
  Handler, completed, received, copied, listening, Server, handle_received, Step, Reach,
  copy_buffer, copy_endpoint, restart, handle, later, GoesOn, stay, go_on,
}
use process_manager_service.ContextWorker.Overlap.Commutes.{with_reads}
use process_manager_service.ContextWorker.Overlap.Taking.{datagrams, handle_received-Commutes}
use process_manager_service.ContextWorker.Overlap.Invariant.{Reach-Inv}
use process_manager_service.ContextWorker.Overlap.Whole.{Reach-run}

datagrams-all_datagrams : {E : Type 0} (ds : List (Bytes × E)) → all_datagrams (datagrams ds) ≡ true
datagrams-all_datagrams [] = refl
datagrams-all_datagrams (d ∷ ds) = datagrams-all_datagrams ds

module _ {W E : Type 0} (env : Environment E)
    (find_one : ℕ → Outcome QueryException (Option Document)) (found : ℕ → Option ModuleRecord)
    (address : ModuleRecord → E) (messages : MessageEventsCache.MessageEventsCache W E)
    (healthy : IsHealthy env find_one found address messages) (threads : ℕ) (c0 : ContextWorker W E)
    (buffer : Bytes) (endpoint : E) (serving : Serving messages c0)
    (room : length buffer ≡ c0.buffer_size) where
  abbrev Reached : List (Bytes × E) → Server W E → Type 0
  Reached = Reach env threads c0 buffer endpoint

  next :
      {arrived : List (Bytes × E)} {s t : Server W E}
      → Reached arrived s
      → Step env threads s [] t
      → Reached arrived t
  next {arrived} {t} reach step = subst (λ ds. Reached ds t) (append-nil arrived) (later reach step)

  Reach-GoesOn :
      {arrived : List (Bytes × E)} {s t : Server W E}
      → Reached arrived s
      → GoesOn env threads s t
      → Reached arrived t
  Reach-GoesOn reach stay = reach
  Reach-GoesOn reach (go_on goes step) = next (Reach-GoesOn reach goes) step

  handle_received-worker :
      {arrived : List (Bytes × E)} {s : Server W E} (bytes : Bytes) (from : E)
      → Reached arrived s
      → (c : ContextWorker W E) × (handle_received env bytes from s.worker ≡ returned c)
  handle_received-worker {s} bytes from reach =
      let inv = Reach-Inv env threads c0 buffer endpoint serving.0 room reach in
      let serves : Serving messages inv.c =
        subst (λ h. Returns h (Serving messages)) inv.ran
          (run-Serving env find_one found address messages healthy (datagrams inv.handled) c0
            serving (datagrams-all_datagrams inv.handled)) in
      let (c, handled) = Returns-result (handle_received env bytes from inv.c) (Serving messages) (
        handle_parsed-Serving env find_one found address messages healthy from
          (env.parse_from_string bytes) inv.c serves) in
      (
        with_reads s.worker.reads c,
        ap (handle_received env bytes from) inv.worker
            ∙ handle_received-Commutes env bytes from s.worker.reads inv.c
            ∙ ap (λ h. h >>= λ x. returned (with_reads s.worker.reads x)) handled,
      )

  module _ (arrived : List (Bytes × E)) (s : Server W E) (reach : Reached arrived s) where
    -- The handlers have gone on, and these are left.
    abbrev Leaves : List (Handler E) → Type 0
    Leaves hs = (t : Server W E) × GoesOn env threads s t × (t.handlers ≡ hs)

    listening_finishes :
        {t : Server W E} (b : Bytes) (f : E) (hs : List (Handler E))
        → GoesOn env threads s t
        → t.handlers ≡ listening b f ∷ hs
        → Leaves hs
    listening_finishes b f hs goes e =
        let (c, handled) = handle_received-worker b f (Reach-GoesOn reach goes) in
        (_, go_on goes (handle [] hs b f c e handled), refl)

    copied_finishes :
        {t : Server W E} (b : Bytes) (f : E) (hs : List (Handler E))
        → GoesOn env threads s t
        → t.handlers ≡ copied b f ∷ hs
        → Leaves hs
    copied_finishes b f hs goes e =
        listening_finishes b f hs (go_on goes (restart [] hs b f e)) refl

    received_finishes :
        {t : Server W E} (b : Bytes) (hs : List (Handler E))
        → GoesOn env threads s t
        → t.handlers ≡ received b ∷ hs
        → Leaves hs
    received_finishes b hs goes e =
        copied_finishes b _ hs (go_on goes (copy_endpoint [] hs b e)) refl

    first_finishes :
        (h : Handler E) (hs : List (Handler E)) {t : Server W E}
        → GoesOn env threads s t
        → t.handlers ≡ h ∷ hs
        → Leaves hs
    first_finishes (completed n) hs goes e =
        received_finishes _ hs (go_on goes (copy_buffer [] hs n e)) refl
    first_finishes (received b) hs goes e = received_finishes b hs goes e
    first_finishes (copied b f) hs goes e = copied_finishes b f hs goes e
    first_finishes (listening b f) hs goes e = listening_finishes b f hs goes e

    all_finish :
        (hs : List (Handler E)) {t : Server W E}
        → GoesOn env threads s t
        → t.handlers ≡ hs
        → Leaves []
    all_finish [] {t = t} goes e = (t, goes, e)
    all_finish (h ∷ hs) goes e =
        let (t, goes', e') = first_finishes h hs goes e in all_finish hs goes' e'

  -- The handlers of a serving worker run on any number of threads, and datagrams have come while
  -- others were being handled; a handler that has its copies goes on as one step. Nothing around the
  -- worker fails: the client of the database is there, every module is unknown to the database or
  -- has a good address, the handlers of the message events give no response, and asio sends each
  -- datagram before `async_send_to` returns. However far the handlers are, they can all go on from there to their ends, with no
  -- datagram more. The worker is then what it is when the datagrams that have come are taken one
  -- after the other in some order.
  pub Reach-finishes :
      {arrived : List (Bytes × E)} {s : Server W E}
      → Reach env threads c0 buffer endpoint arrived s
      → (t : Server W E) × GoesOn env threads s t
        × (t.handlers ≡ [])
        × (order : List (Bytes × E)) × Perm order arrived
        × (run env (datagrams order) c0 ≡ returned t.worker)
  Reach-finishes {arrived} {s} reach =
      let (t, goes, none_left) = all_finish arrived s reach s.handlers stay refl in
      let (order, perm, ran) =
        Reach-run env threads c0 buffer endpoint serving.0 room (Reach-GoesOn reach goes)
          none_left in
      (t, goes, none_left, order, perm, ran)
