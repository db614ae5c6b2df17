-- ===== src/ContextWorker/Moves.antt =====
-- The move constructor and the move assignment of ContextWorker, which `std::vector` uses when it
-- makes room for one more worker. Both leave the caches where they are, for the workers refer to
-- them; the vector of threads, to which both workers refer, stands in Service::Base. An operation
-- that asio has started stays with the worker that started it.
use process_manager_service.Prelude.{
  IfReturns, IfReturns-mono, >>=-agree, Bool-cases, Bytes, List, [], ap, arith, false, inl, inr,
  if◌then◌else◌, ltb, map, refl, returned, ◌>>=◌, ◌∙◌, ◌∷◌, ◌≡◌,
}
use process_manager_service.ContextWorker.{
  Environment, ContextWorker, ReadResult, read_error, datagram, take, start_read, complete_read,
  run,
}
use process_manager_service.ContextWorker.Reads.{complete_read_size}

-- The same result with a datagram of no bytes.
abbrev pub emptied : {E : Type 0} → ReadResult E → ReadResult E
emptied read_error = read_error
emptied (datagram bytes from) = datagram [] from

none_taken : (bytes : Bytes) → take 0 bytes ≡ []
none_taken [] = refl
none_taken (b ∷ bytes) = refl

module _ {W E : Type 0} where
  -- The worker that is made, and the one that it is made from.
  unfoldable pub move_worker : ContextWorker W E → ContextWorker W E × ContextWorker W E
  move_worker other =
      (record other { buffer_size = 0; reads = 0; sent = [] }, record other { socket = false })

  -- The worker that is assigned to, and the one that is assigned.
  unfoldable pub move_assign :
      ContextWorker W E → ContextWorker W E → ContextWorker W E × ContextWorker W E
  move_assign this other = (record this { socket = other.socket }, record other { socket = false })

  abbrev HasNoBuffer : ContextWorker W E → Type 0
  HasNoBuffer c = c.buffer_size ≡ 0

  module _ (env : Environment E) where
    complete_read-emptied :
        (result : ReadResult E) (c : ContextWorker W E)
        → c.buffer_size ≡ 0
        → complete_read env result c ≡ complete_read env (emptied result) c
    unfolding complete_read
    complete_read-emptied read_error c e = refl
    complete_read-emptied (datagram bytes from) c e =
        let cut : take c.buffer_size bytes ≡ take c.buffer_size [] = rw e (none_taken bytes) in
        rw (cut, complete_read) refl

    step_kept :
        (result : ReadResult E) (c : ContextWorker W E)
        → HasNoBuffer c
        → IfReturns
            (if ltb 0 c.reads then complete_read env (emptied result) c else returned c)
            HasNoBuffer
    step_kept result c e = elim (Bool-cases (ltb 0 c.reads)) [
      | inl some_read ↦
          rw some_read (
            IfReturns-mono _ _ HasNoBuffer (complete_read_size env (emptied result) c)
              λ c' k. k ∙ e)
      | inr no_read ↦ rw no_read e
    ]

    run_emptied :
        (results : List (ReadResult E)) (c : ContextWorker W E)
        → c.buffer_size ≡ 0
        → run env results c ≡ run env (map emptied results) c
    unfolding run
    run_emptied [] c e = refl
    run_emptied (result ∷ results) c e =
        ap (λ h. (if ltb 0 c.reads then h else returned c) >>= run env results)
          (complete_read-emptied result c e)
        ∙ >>=-agree (if ltb 0 c.reads then complete_read env (emptied result) c else returned c)
            (run env results) (run env (map emptied results)) HasNoBuffer (step_kept result c e)
            λ c' e'. run_emptied results c' e'

    -- A worker that is moved, and only then begins to read, takes each datagram for an empty one:
    -- whatever comes to it, it does what it would do if no datagram had any bytes.
    pub run-move_worker :
        (other : ContextWorker W E) (results : List (ReadResult E))
        → run env results (start_read (move_worker other).0)
          ≡ run env (map emptied results) (start_read (move_worker other).0)
    unfolding move_worker start_read
    run-move_worker other results = run_emptied results _ (ground arith)
