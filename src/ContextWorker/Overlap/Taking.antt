-- ===== src/ContextWorker/Overlap/Taking.antt =====
-- What a handler does with its own copies, and what `complete_read` does with its datagram.
use process_manager_service.Prelude.{
  ap₂, map-append, Bytes, List, Outcome, [], ap, arith, map, none, refl, returned, some, sym, true,
  threw, undefined, ℕ, ◌++◌, ◌>>=◌, ◌∙◌, ◌∷◌, ◌≡◌,
}
use process_manager_service.ContextWorker.{
  WorkerException, Environment, ContextWorker, ReadResult, datagram, take, start_read,
  handle_message, complete_read, run,
}
use process_manager_service.ContextWorker.Reads.{IsReading, run_step, run-append}
use process_manager_service.ContextWorker.Requests.{read_lem}
use process_manager_service.ContextWorker.Overlap.{handle_received}
use process_manager_service.ContextWorker.Overlap.Commutes.{with_reads, handle_message-Commutes}

abbrev pub datagrams : {E : Type 0} → List (Bytes × E) → List (ReadResult E)
datagrams ds = map (λ (bytes, from). datagram bytes from) ds

module _ {W E : Type 0} (env : Environment E) where
  pub handle_received-Commutes :
      (bytes : Bytes) (from : E) (r : ℕ) (c : ContextWorker W E)
      → handle_received env bytes from (with_reads r c)
        ≡ (handle_received env bytes from c >>= λ c'. returned (with_reads r c'))
  handle_received-Commutes bytes from r c =
      elim (env.parse_from_string bytes)
        as (λ x.
          (elim x [
            | none ↦ returned (with_reads r c)
            | some m ↦ handle_message env from m (with_reads r c)
          ])
          ≡ (elim x as (λ y. Outcome WorkerException (ContextWorker W E)) [
            | none ↦ returned c
            | some m ↦ handle_message env from m c
          ]
              >>= λ c'. returned (with_reads r c'))) [
                | none ↦ refl
                | some m ↦ handle_message-Commutes r env from m c
              ]

  pub restarted :
      (w c : ContextWorker W E)
      → w ≡ with_reads w.reads c
      → w.reads ≡ 0
      → c.socket ≡ true
      → start_read w ≡ with_reads 1 c
  unfolding start_read
  restarted w c same none_outstanding open_now =
      ap start_read (same ∙ ap (λ n. with_reads n c) none_outstanding) ∙ rw open_now refl

  pub result_before :
      (h : Outcome WorkerException (ContextWorker W E)) (r : ℕ) (w : ContextWorker W E)
      → (h >>= λ c. returned (with_reads r c)) ≡ returned w
      → (c : ContextWorker W E) × (h ≡ returned c) × (w ≡ with_reads w.reads c) × (w.reads ≡ r)
  result_before (returned c) r w e =
      let same : with_reads r c ≡ w = cc in (c, refl, ground arith, ground arith)
  result_before (threw x) r w e = absurd cc
  result_before undefined r w e = absurd cc

  pub run_one_more :
      (handled : List (Bytes × E)) (d : Bytes × E) (c0 c c' : ContextWorker W E)
      → run env (datagrams handled) c0 ≡ returned c
      → c.reads ≡ 1
      → complete_read env (datagram d.0 d.1) c ≡ returned c'
      → run env (datagrams (handled ++ d ∷ [])) c0 ≡ returned c'
  unfolding run
  run_one_more handled d c0 c c' ran reads took =
      ap (λ ds. run env ds c0) (map-append _ handled (d ∷ []))
      ∙ run-append env (datagrams handled) (datagrams (d ∷ [])) c0
      ∙ ap (λ h. h >>= λ x. run env (datagrams (d ∷ [])) x) ran
      ∙ run_step env (datagram d.0 d.1) [] c reads
      ∙ ap (λ h. h >>= λ x. returned x) took

  pub took_own :
      (bytes b : Bytes) (from f : E) (c c' : ContextWorker W E)
      → IsReading c
      → b ≡ take c.buffer_size bytes
      → f ≡ from
      → handle_received env b f c ≡ returned c'
      → complete_read env (datagram bytes from) c ≡ returned c'
  took_own bytes b from f c c' reading own_bytes own_endpoint handles =
      read_lem env c bytes from (env.parse_from_string (take c.buffer_size bytes)) reading refl
      ∙ ap₂ (λ x y. handle_received env x y c) (sym own_bytes) (sym own_endpoint)
      ∙ handles
