-- ===== src/ContextWorker/Reads.antt =====
-- Whether the worker goes on reading.
mod Frame
use process_manager_service.ContextWorker.Reads.Frame.{handle_message-Keeps}
use process_manager_service.Prelude.{
  IfReturns, >>=-IfReturns, IfReturns-mono, IfReturns-at, >>=-assoc, Bool, List, Option, Outcome,
  [], ap, arith, false, fun_ext, if◌then◌else◌, ltb, none, refl, returned, some, sym, threw, true,
  undefined, ◌&&◌, ◌++◌, ◌-◌, ◌>>=◌, ◌∙◌, ◌∷◌, ◌≡◌,
}
use process_manager_service.ContextWorker.{
  WorkerException, ServiceMessage, Environment, ContextWorker, ReadResult, read_error, datagram,
  take, start_read, handle_message, complete_read, run,
}

abbrev pub is_datagram : {E : Type 0} → ReadResult E → Bool
is_datagram read_error = false
is_datagram (datagram bytes from) = true

abbrev pub all_datagrams : {E : Type 0} → List (ReadResult E) → Bool
all_datagrams [] = true
all_datagrams (result ∷ results) = is_datagram result && all_datagrams results

module _ {W E : Type 0} where
  -- A worker that reads: it has a socket, and one read is outstanding.
  abbrev pub IsReading : ContextWorker W E → Type 0
  IsReading c = (c.reads ≡ 1) × (c.socket ≡ true)

  module _ (env : Environment E) where
    handle_parsed-IsReading :
        (parsed : Option ServiceMessage) (from : E) (c : ContextWorker W E)
        → IsReading c
        → IfReturns
            (elim parsed [ none ↦ returned c | some m ↦ handle_message env from m c ])
            IsReading
    handle_parsed-IsReading none from c r = r
    handle_parsed-IsReading (some m) from c (er, es) =
        IfReturns-mono _ _ IsReading (handle_message-Keeps env from m c)
          λ c' (fr, fs, fb). (fr ∙ er, fs ∙ es)

    restarted :
        (c : ContextWorker W E)
        → IsReading c
        → IsReading (start_read (record c { reads = c.reads - 1 }))
    unfolding start_read
    restarted c (er, es) = rw es (rw er refl, refl)

    pub complete_read-IsReading :
        (result : ReadResult E) (c : ContextWorker W E)
        → IsReading c
        → is_datagram result ≡ true
        → IfReturns (complete_read env result c) IsReading
    unfolding complete_read
    complete_read-IsReading read_error c r d = absurd (ground arith)
    complete_read-IsReading (datagram bytes from) c r d =
        handle_parsed-IsReading (env.parse_from_string (take c.buffer_size bytes)) from
          (start_read (record c { reads = c.reads - 1 })) (restarted c r)

    pub run_step :
        (result : ReadResult E) (results : List (ReadResult E)) (c : ContextWorker W E)
        → c.reads ≡ 1
        → run env (result ∷ results) c ≡ (complete_read env result c >>= λ c'. run env results c')
    unfolding run
    run_step result results c e = let some_read : ltb 0 c.reads ≡ true = rw e refl in rw some_read

    -- No datagram changes the size of the buffer.
    pub complete_read_size :
        (result : ReadResult E) (c : ContextWorker W E)
        → IfReturns (complete_read env result c) (λ c'. c'.buffer_size ≡ c.buffer_size)
    unfolding complete_read start_read
    complete_read_size read_error c = refl
    complete_read_size (datagram bytes from) c =
        let c1 = start_read (record c { reads = c.reads - 1 }) in
        elim (env.parse_from_string (take c.buffer_size bytes))
          as (λ parsed.
            IfReturns (elim parsed [ none ↦ returned c1 | some m ↦ handle_message env from m c1 ])
              (λ c'. c'.buffer_size ≡ c.buffer_size)) [
                | none ↦ ground arith
                | some m ↦
                    IfReturns-mono _ _ (λ c'. c'.buffer_size ≡ c.buffer_size)
                      (handle_message-Keeps env from m c1) λ c' k. k.2 ∙ ground arith
              ]

    -- Without a read no result reaches the worker.
    run_stopped :
        (results : List (ReadResult E)) (c : ContextWorker W E)
        → c.reads ≡ 0
        → run env results c ≡ returned c
    unfolding run
    run_stopped [] c e = refl
    run_stopped (result ∷ results) c e =
        let no_read : ltb 0 c.reads ≡ false = rw e refl in rw no_read (run_stopped results c e)

    run-IsReading' :
        (results : List (ReadResult E)) (c : ContextWorker W E)
        → IsReading c
        → all_datagrams results ≡ true
        → IfReturns (run env results c) IsReading
    unfolding run
    run-IsReading' [] c r d = r
    run-IsReading' (result ∷ results) c r d = rw (run_step result results c r.0) (
        >>=-IfReturns (complete_read env result c) _ IsReading IsReading
          (complete_read-IsReading result c r (ground arith))
          λ c' r'. run-IsReading' results c' r' (ground arith))

    pub run-append :
        (before after : List (ReadResult E)) (c : ContextWorker W E)
        → run env (before ++ after) c ≡ (run env before c >>= λ c'. run env after c')
    unfolding run
    run-append [] after c = refl
    run-append (result ∷ before) after c =
        let first : Outcome WorkerException (ContextWorker W E) =
          if ltb 0 c.reads then complete_read env result c else returned c in
        ap (λ f. first >>= f) (fun_ext λ c'. run-append before after c')
        ∙ sym (>>=-assoc first (λ c'. run env before c') λ c'. run env after c')

    error_ends :
        (after : List (ReadResult E)) (c : ContextWorker W E)
        → IsReading c
        → run env (read_error ∷ after) c ≡ returned (record c { reads = 0 })
    unfolding complete_read
    error_ends after c r =
        run_step read_error after c r.0 ∙ rw r.0 (run_stopped after (record c { reads = 0 }) refl)

    ends :
        (after : List (ReadResult E)) (h : Outcome WorkerException (ContextWorker W E))
        → IfReturns h IsReading
        → (h >>= λ c'. run env (read_error ∷ after) c')
          ≡ (h >>= λ c'. returned (record c' { reads = 0 }))
    ends after (returned c) r = error_ends after c r
    ends after (threw x) r = refl
    ends after undefined r = refl

    -- A worker that reads, and that has taken datagrams only, still reads, whatever they were and
    -- whatever the handlers did, if no exception has ended it.
    run-IsReading :
        (results : List (ReadResult E)) (c c' : ContextWorker W E)
        → IsReading c
        → all_datagrams results ≡ true
        → run env results c ≡ returned c'
        → IsReading c'
    run-IsReading results c c' r d e = IfReturns-at _ IsReading c' (run-IsReading' results c r d) e

    -- To a worker that reads there come datagrams, an error, and then any results. The error ends
    -- the reading: of the results after it none has any effect, for the read is not started again.
    pub run_read_error :
        (before after : List (ReadResult E)) (c : ContextWorker W E)
        → IsReading c
        → all_datagrams before ≡ true
        → run env (before ++ read_error ∷ after) c
          ≡ (run env before c >>= λ c'. returned (record c' { reads = 0 }))
    run_read_error before after c r d =
        run-append before (read_error ∷ after) c
        ∙ ends after (run env before c) (run-IsReading' before c r d)
