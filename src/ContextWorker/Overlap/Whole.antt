-- ===== src/ContextWorker/Overlap/Whole.antt =====
-- Overlapping handlers, and the datagrams taken one after the other.
use process_manager_service.Prelude.{
  Bytes, List, [], ap, append-nil, arith, length, returned, subst, sym, ℕ, ◌++◌, ◌+◌, ◌∙◌, ◌≡◌,
}
use mathlib.Core.List.{Perm}
use process_manager_service.ContextWorker.{Environment, ContextWorker, run}
use process_manager_service.ContextWorker.Reads.{IsReading}
use process_manager_service.ContextWorker.Overlap.{Server, Reach}
use process_manager_service.ContextWorker.Overlap.Copies.{count_open}
use process_manager_service.ContextWorker.Overlap.Commutes.{with_reads}
use process_manager_service.ContextWorker.Overlap.Taking.{datagrams}
use process_manager_service.ContextWorker.Overlap.Invariant.{none_held, Inv, Reach-Inv}

module _ {W E : Type 0} (env : Environment E) where
  module _ (threads : ℕ) (c0 : ContextWorker W E) where
    -- When no handler is left, a worker that reads is what the handled datagrams have made of it.
    all_handled :
        {arrived : List (Bytes × E)} {s : Server W E} (inv : Inv env threads c0 arrived s)
        → s.handlers ≡ []
        → (inv.rest ≡ []) × (run env (datagrams inv.handled) c0 ≡ returned s.worker)
    all_handled {s} inv none_left =
        let one =
          subst (λ hs. count_open {E = E} c0.buffer_size hs + s.worker.reads ≡ 1) none_left
            inv.one_read in
        let reads : s.worker.reads ≡ 1 = omega (arith, one) in
        (
          none_held _ _ _ s.handlers inv.rest none_left inv.holds,
          inv.ran
              ∙ ap returned
                  (ap (λ n. with_reads n inv.c) (inv.reading.0 ∙ sym reads) ∙ sym inv.worker),
        )

    -- The handlers of a worker that reads run on any number of threads, and datagrams come while
    -- others are being handled; a handler that has its copies goes on as one step. When no handler
    -- is left, the worker is what it is when the same datagrams come one after the other in some
    -- order: each has been handled once, with its own bytes and from its own endpoint.
    pub Reach-run :
        (buffer : Bytes) (endpoint : E) {arrived : List (Bytes × E)} {s : Server W E}
        → IsReading c0
        → length buffer ≡ c0.buffer_size
        → Reach env threads c0 buffer endpoint arrived s
        → s.handlers ≡ []
        → (order : List (Bytes × E)) × Perm order arrived
          × (run env (datagrams order) c0 ≡ returned s.worker)
    Reach-run buffer endpoint {arrived} {s} reading room reach none_left =
        let inv = Reach-Inv env threads c0 buffer endpoint reading room reach in
        let (no_rest, ran) = all_handled inv none_left in
        (
          inv.handled,
          subst (λ x. Perm x arrived) (append-nil inv.handled)
              (subst (λ ds. Perm (inv.handled ++ ds) arrived) no_rest inv.all_of),
          ran,
        )

    -- On one thread the order is that in which the datagrams have come: when no handler is left, the
    -- worker that reads is what `run` makes of them, one read and its handler after the other.
    pub Reach-run_alone :
        (buffer : Bytes) (endpoint : E) {arrived : List (Bytes × E)} {s : Server W E}
        → threads ≡ 1
        → IsReading c0
        → length buffer ≡ c0.buffer_size
        → Reach env threads c0 buffer endpoint arrived s
        → s.handlers ≡ []
        → run env (datagrams arrived) c0 ≡ returned s.worker
    Reach-run_alone buffer endpoint {arrived} {s} alone reading room reach none_left =
        let inv = Reach-Inv env threads c0 buffer endpoint reading room reach in
        let (no_rest, ran) = all_handled inv none_left in
        let same : inv.handled ≡ arrived =
          sym (append-nil inv.handled)
          ∙ ap (λ ds. inv.handled ++ ds) (sym no_rest)
          ∙ inv.in_order alone in
        subst (λ ds. run env (datagrams ds) c0 ≡ returned s.worker) same ran
