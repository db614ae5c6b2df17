-- ===== src/ServiceBase/Threads/Laws.antt =====
-- Which joins return.
use process_manager_service.Prelude.{
  All, All-append, Bool, List, [], arith, false, length, length-append, map, none, refl, some, suc,
  true, zero, ℕ, ◌*◌, ◌++◌, ◌+◌, ◌<◌, ◌∷◌, ◌↔◌, ◌≡◌,
}
use process_manager_service.ServiceBase.{Base, join_all}
use process_manager_service.ServiceBase.Threads.{
  Thread, add_threads, run_all, run_workers, stop_io_context, is_stopped, join_threads,
  destroy_base,
}

length-add_threads :
    (n worker : ℕ) (threads : List Thread)
    → length (add_threads n worker threads) ≡ length threads + n
unfolding add_threads
length-add_threads zero worker threads = omega arith
length-add_threads (suc n) worker threads = omega (
  arith,
  length-add_threads n worker (threads ++ record { worker = worker; joinable = true } ∷ []),
  length-append threads (record { worker = worker; joinable = true } ∷ []),
)

length-run_workers :
    (worker : ℕ) (contexts : List Bool) (threads : List Thread)
    → length (run_workers worker contexts threads) ≡ length threads + 5 * length contexts
unfolding run_workers
length-run_workers worker [] threads = omega arith
length-run_workers worker (context ∷ contexts) threads = omega (
  arith,
  length-run_workers (suc worker) contexts (run_all worker threads),
  length-add_threads 5 worker threads,
)

-- A thread that can be joined, of one of the first workers.
abbrev IsOf : ℕ → Thread → Type 0
IsOf n thread = (thread.joinable ≡ true) × (thread.worker < n)

add_threads-IsOf :
    (n worker bound : ℕ) (threads : List Thread)
    → worker < bound
    → All (IsOf bound) threads
    → All (IsOf bound) (add_threads n worker threads)
unfolding add_threads
add_threads-IsOf zero worker bound threads below h = h
add_threads-IsOf (suc n) worker bound threads below h =
    add_threads-IsOf n worker bound _ below
      (All-append (IsOf bound) threads _ h ((refl, below), tt))

run_workers-IsOf :
    (worker bound : ℕ) (contexts : List Bool) (threads : List Thread)
    → worker + length contexts < suc bound
    → All (IsOf bound) threads
    → All (IsOf bound) (run_workers worker contexts threads)
unfolding run_workers
run_workers-IsOf worker bound [] threads below h = h
run_workers-IsOf worker bound (context ∷ contexts) threads below h =
    run_workers-IsOf (suc worker) bound contexts (run_all worker threads) (omega arith)
      (add_threads-IsOf 5 worker bound threads (omega arith) h)

is_stopped-running :
    (contexts : List Bool) (worker : ℕ)
    → All (λ context. context ≡ false) contexts
    → is_stopped contexts worker ≡ false
unfolding is_stopped
is_stopped-running [] worker h = refl
is_stopped-running (context ∷ contexts) zero h = h.0
is_stopped-running (context ∷ contexts) (suc worker) h = is_stopped-running contexts worker h.1

is_stopped-stop_io_context :
    (contexts : List Bool) (worker : ℕ)
    → worker < length contexts
    → is_stopped (map stop_io_context contexts) worker ≡ true
unfolding is_stopped stop_io_context
is_stopped-stop_io_context [] worker below = absurd (omega arith)
is_stopped-stop_io_context (context ∷ contexts) zero below = refl
is_stopped-stop_io_context (context ∷ contexts) (suc worker) below =
    is_stopped-stop_io_context contexts worker (omega arith)

join_threads_blocks :
    (contexts : List Bool) (bound : ℕ) (threads : List Thread)
    → All (λ context. context ≡ false) contexts
    → All (IsOf bound) threads
    → 0 < length threads
    → join_threads contexts threads ≡ none
unfolding join_threads
join_threads_blocks contexts bound [] running h some_thread = absurd (omega arith)
join_threads_blocks contexts bound (thread ∷ threads) running h some_thread =
    rw h.0.0 (rw (is_stopped-running contexts thread.worker running) refl)

-- The thread after its join.
abbrev pub joined : Thread → Thread
joined thread = record thread { joinable = false }

join_threads_returns :
    (contexts : List Bool) (threads : List Thread)
    → All (IsOf (length contexts)) threads
    → join_threads (map stop_io_context contexts) threads ≡ some (map joined threads)
unfolding join_threads
join_threads_returns contexts [] h = refl
join_threads_returns contexts (thread ∷ threads) h = rw h.0.0 (
    rw (is_stopped-stop_io_context contexts thread.worker h.0.1)
      (rw (join_threads_returns contexts threads h.1) refl))

blocked_lem :
    (contexts : List Bool)
    → join_threads contexts (run_workers 0 contexts []) ≡ none
    → 0 < length contexts
unfolding join_threads run_workers
blocked_lem [] blocked = absurd (ground arith)
blocked_lem (context ∷ contexts) blocked = omega arith

-- A service has no threads yet, and the contexts of its workers run. Then `joinAll` starts as many
-- threads as the service counts. If there is a worker, then joining them, which is what RUN_FOREVER
-- does, never returns, and otherwise it does; the destructor of the service always returns, and
-- leaves every thread joined.
pub destroy_base-run_workers :
    {W E : Type 0} (s : Base W E) (contexts : List Bool)
    → s.io_context_threads ≡ 0
    → length contexts ≡ length s.context_workers
    → All (λ context. context ≡ false) contexts
    → ((join_all s).io_context_threads ≡ length (run_workers 0 contexts []))
      × ((join_threads contexts (run_workers 0 contexts []) ≡ none) ↔ (0 < length contexts))
      × (destroy_base contexts (run_workers 0 contexts [])
          ≡ some (map joined (run_workers 0 contexts [])))
unfolding destroy_base join_all
destroy_base-run_workers s contexts no_threads workers running =
    let all_of = run_workers-IsOf 0 (length contexts) contexts [] (omega arith) tt in
    let number = length-run_workers 0 contexts [] in
    (
      omega (arith, number),
      (
        λ blocked. blocked_lem contexts blocked,
        λ some_worker.
            join_threads_blocks contexts (length contexts) _ running all_of (omega (arith, number)),
      ),
      join_threads_returns contexts _ all_of,
    )
