-- ===== src/ServiceBase/Threads.antt =====
-- The threads that run asio's contexts: ContextWorker::runAll, ContextWorker::stopIoContext, the joins
-- of Base::runServiceTask, and the destructor of Base. A context is whether it has been stopped; its
-- work guard gives it work until then, so `run` returns in a thread exactly when it has been.
-- `ioContextThreads` is a list of threads, each with the position of the worker whose context it runs.
pub mod Laws
use process_manager_service.Prelude.{
  Bool, List, Option, [], false, if◌then◌else◌, map, none, some, suc, true, zero, ℕ, ◌++◌, ◌∷◌,
}

pub record Thread : Type 0 where
  pub worker : ℕ
  pub joinable : Bool

-- The rounds of the loop of `runAll` that are left, on the worker at a position.
unfoldable pub add_threads : ℕ → ℕ → List Thread → List Thread
add_threads zero worker threads = threads
add_threads (suc n) worker threads =
    add_threads n worker (threads ++ record { worker = worker; joinable = true } ∷ [])

unfoldable pub run_all : ℕ → List Thread → List Thread
unfolding add_threads
run_all worker threads = add_threads 5 worker threads

-- `joinAll`: the workers from a position on.
unfoldable pub run_workers : ℕ → List Bool → List Thread → List Thread
unfolding run_all
run_workers worker [] threads = threads
run_workers worker (context ∷ contexts) threads =
    run_workers (suc worker) contexts (run_all worker threads)

unfoldable pub stop_io_context : Bool → Bool
stop_io_context context = true

-- Whether the context of the worker at a position has been stopped.
unfoldable pub is_stopped : List Bool → ℕ → Bool
is_stopped [] worker = false
is_stopped (context ∷ contexts) zero = context
is_stopped (context ∷ contexts) (suc worker) = is_stopped contexts worker

-- The loop that joins the threads which are joinable; it gives nothing if a join never returns.
unfoldable pub join_threads : List Bool → List Thread → Option (List Thread)
unfolding is_stopped
join_threads contexts [] = some []
join_threads contexts (thread ∷ threads) =
    let rest = join_threads contexts threads in
    let waits = if thread.joinable then is_stopped contexts thread.worker else true in
    if waits
    then elim rest [
      | none ↦ none
      | some joined ↦ some (record thread { joinable = false } ∷ joined)
    ]
    else none

-- `~Base`: the contexts are stopped, and then the threads are joined.
unfoldable pub destroy_base : List Bool → List Thread → Option (List Thread)
unfolding stop_io_context join_threads
destroy_base contexts threads = join_threads (map stop_io_context contexts) threads
