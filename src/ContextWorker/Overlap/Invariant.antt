-- ===== src/ContextWorker/Overlap/Invariant.antt =====
-- What holds of handlers that overlap, after any steps.
use process_manager_service.Prelude.{
  IfReturns-at, Bytes, List, [], ap, ◌<◌, append-nil, suc, ◌≤◌, append_assoc, arith, length, refl,
  returned, subst, sym, ℕ, ◌++◌, ◌+◌, ◌-◌, ◌∙◌, ◌∷◌, ◌≡◌,
}
use mathlib.Core.List.{Perm, perm_append_singleton, perm_middle}
use mathlib.Core.List.Perm
use process_manager_service.ContextWorker.{
  Environment, ContextWorker, datagram, take, start_read, complete_read, run,
}
use process_manager_service.ContextWorker.Reads.{
  IsReading, complete_read-IsReading, complete_read_size,
}
use process_manager_service.ContextWorker.Overlap.{
  Handler, completed, received, copied, listening, Server, handle_received, Step, Reach, arrive,
  copy_buffer, copy_endpoint, restart, handle, start, later,
}
use process_manager_service.ContextWorker.Overlap.Copies.{
  take-receive_into, length-receive_into, AllHold, Holds, is_open, count_open, count_open-middle,
  AllHold-listening, AllHold-change, AllHold-Split, Split,
}
use process_manager_service.ContextWorker.Overlap.Commutes.{with_reads}
use process_manager_service.ContextWorker.Overlap.Taking.{
  datagrams, handle_received-Commutes, restarted, result_before, run_one_more, took_own,
}

pub none_held :
    {E : Type 0} (size : ℕ) (buffer : Bytes) (endpoint : E) (hs : List (Handler E))
    (ds : List (Bytes × E))
    → hs ≡ []
    → AllHold size buffer endpoint hs ds
    → ds ≡ []
none_held size buffer endpoint [] [] e holds = refl
none_held size buffer endpoint [] (d ∷ ds) e holds = absurd holds
none_held size buffer endpoint (h ∷ hs) ds e holds = absurd cc

moved :
    {E : Type 0} (handled rest before after arrived : List (Bytes × E)) (d : Bytes × E)
    → rest ≡ before ++ d ∷ after
    → Perm (handled ++ rest) arrived
    → Perm ((handled ++ d ∷ []) ++ (before ++ after)) (arrived ++ [])
moved handled rest before after arrived d whole perm =
    subst (λ x. Perm ((handled ++ d ∷ []) ++ (before ++ after)) x) (sym (append-nil arrived))
      (subst (λ x. Perm x arrived) (sym (append_assoc handled (d ∷ []) (before ++ after)))
        (Perm.trans (Perm.append_left handled (Perm.symm (perm_middle before after)))
          (subst (λ x. Perm (handled ++ x) arrived) whole perm)))

length-middle :
    {A : Type 0} (before after : List A) (x : A)
    → length (before ++ x ∷ after) ≡ suc (length (before ++ after))
length-middle [] after x = refl
length-middle (y ∷ before) after x = ap suc (length-middle before after x)

empty_of : {A : Type 0} (xs : List A) → length xs < 1 → xs ≡ []
empty_of [] h = refl
empty_of (x ∷ xs) h = absurd (omega arith)

-- A list to which one element is added behind an empty rest.
last_in_order :
    {A : Type 0} (handled rest arrived : List A) (d : A)
    → rest ≡ []
    → handled ++ rest ≡ arrived
    → handled ++ d ∷ rest ≡ arrived ++ d ∷ []
last_in_order handled rest arrived d e whole =
    ap (λ r. handled ++ d ∷ r) e
    ∙ ap (λ x. x ++ d ∷ []) (sym (append-nil handled) ∙ ap (λ r. handled ++ r) (sym e) ∙ whole)

-- The only element of a rest goes over to the front.
only_in_order :
    {A : Type 0} (handled rest before after arrived : List A) (d : A)
    → before ++ after ≡ []
    → rest ≡ before ++ d ∷ after
    → handled ++ rest ≡ arrived
    → (handled ++ d ∷ []) ++ (before ++ after) ≡ arrived ++ []
only_in_order handled rest [] [] arrived d e split whole =
    append-nil (handled ++ d ∷ [])
    ∙ ap (λ r. handled ++ r) (sym split)
    ∙ whole
    ∙ sym (append-nil arrived)
only_in_order handled rest [] (x ∷ after) arrived d e split whole = absurd cc
only_in_order handled rest (x ∷ before) after arrived d e split whole = absurd cc

module _ {W E : Type 0} (env : Environment E) where
  module _ (threads : ℕ) (c0 : ContextWorker W E) where
    -- The datagrams that have been handled, in that order, have made of the worker what they make of
    -- it one after the other; those of the handlers are the rest.
    pub record Inv (arrived : List (Bytes × E)) (s : Server W E) : Type 0 where
      pub handled : List (Bytes × E)
      pub rest : List (Bytes × E)
      pub all_of : Perm (handled ++ rest) arrived
      pub c : ContextWorker W E
      pub reading : IsReading c
      pub size : c.buffer_size ≡ c0.buffer_size
      pub ran : run env (datagrams handled) c0 ≡ returned c
      pub worker : s.worker ≡ with_reads s.worker.reads c
      pub one_read : count_open {E = E} c0.buffer_size s.handlers + s.worker.reads ≡ 1
      pub room : length s.message_buffer ≡ c0.buffer_size
      pub holds : AllHold c0.buffer_size s.message_buffer s.remote_endpoint s.handlers rest
      pub few : length s.handlers ≤ threads
      pub in_order : threads ≡ 1 → handled ++ rest ≡ arrived

    -- A handler goes on, and the others stay where they are.
    advance :
        {arrived : List (Bytes × E)} {s : Server W E} (inv : Inv arrived s)
        (before after : List (Handler E)) (h h' : Handler E) (w : ContextWorker W E)
        → s.handlers ≡ before ++ h ∷ after
        → w ≡ with_reads w.reads inv.c
        → is_open {E = E} c0.buffer_size h' + w.reads
          ≡ is_open {E = E} c0.buffer_size h + s.worker.reads
        → ((d : Bytes × E)
            → Holds c0.buffer_size s.message_buffer s.remote_endpoint h d
            → Holds c0.buffer_size s.message_buffer s.remote_endpoint h' d)
        → Inv (arrived ++ []) (record s { worker = w; handlers = before ++ h' ∷ after })
    advance {arrived} {s} inv before after h h' w e worker kept k = record {
      handled = inv.handled;
      rest = inv.rest;
      all_of = subst (Perm (inv.handled ++ inv.rest)) (sym (append-nil arrived)) inv.all_of;
      c = inv.c;
      reading = inv.reading;
      size = inv.size;
      ran = inv.ran;
      worker = worker;
      one_read =
          let one =
            subst (λ hs. count_open {E = E} c0.buffer_size hs + s.worker.reads ≡ 1) e
              inv.one_read in
          omega (
            arith,
            one,
            kept,
            count_open-middle {E = E} c0.buffer_size before after h,
            count_open-middle {E = E} c0.buffer_size before after h',
          );
      room = inv.room;
      holds =
          AllHold-change c0.buffer_size s.message_buffer s.remote_endpoint before after h h'
            inv.rest k
            (subst (λ hs. AllHold c0.buffer_size s.message_buffer s.remote_endpoint hs inv.rest) e
              inv.holds);
      few =
          let less = subst (λ hs. length hs ≤ threads) e inv.few in
          omega (arith, less, length-middle before after h, length-middle before after h');
      in_order = λ one. inv.in_order one ∙ sym (append-nil arrived);
    }

    open_alone :
        {arrived : List (Bytes × E)} {s : Server W E} (inv : Inv arrived s)
        (before after : List (Handler E)) (h : Handler E)
        → s.handlers ≡ before ++ h ∷ after
        → is_open {E = E} c0.buffer_size h ≡ 1
        → s.worker.reads ≡ 0
    open_alone {arrived} {s} inv before after h e opened =
        let one =
          subst (λ hs. count_open {E = E} c0.buffer_size hs + s.worker.reads ≡ 1) e inv.one_read in
        omega (arith, one, opened, count_open-middle {E = E} c0.buffer_size before after h)

    Step-Inv :
        {arrived : List (Bytes × E)} {s : Server W E} {new : List (Bytes × E)} {t : Server W E}
        → Step env threads s new t
        → Inv arrived s
        → Inv (arrived ++ new) t
    Step-Inv {arrived} {s} (arrive bytes from some_read free) inv = record {
      handled = inv.handled;
      rest = (bytes, from) ∷ inv.rest;
      all_of = Perm.trans (perm_middle inv.handled inv.rest) (
          Perm.trans (Perm.cons (bytes, from) inv.all_of)
            (Perm.symm (perm_append_singleton (bytes, from) arrived)));
      c = inv.c;
      reading = inv.reading;
      size = inv.size;
      ran = inv.ran;
      worker = ap (with_reads (s.worker.reads - 1)) inv.worker;
      one_read = omega (arith, inv.one_read);
      room = length-receive_into bytes s.message_buffer ∙ inv.room;
      holds = (
        (take-receive_into bytes s.message_buffer ∙ ap (λ n. take n bytes) inv.room, refl),
        AllHold-listening c0.buffer_size _ _ _ _ s.handlers inv.rest (omega (arith, inv.one_read))
            inv.holds,
      );
      few = omega (arith, free);
      in_order = λ one.
          last_in_order inv.handled inv.rest arrived (bytes, from)
            (none_held _ _ _ s.handlers inv.rest (empty_of s.handlers (omega (arith, free, one)))
              inv.holds)
            (inv.in_order one);
    }
    Step-Inv {arrived} {s} (copy_buffer before after n e) inv =
        advance inv before after (completed n) _ s.worker e inv.worker refl
          λ (bytes, from) held. held
    Step-Inv {arrived} {s} (copy_endpoint before after b e) inv =
        advance inv before after (received b) _ s.worker e inv.worker refl
          λ (bytes, from) held. held
    Step-Inv {arrived} {s} (restart before after b f e) inv =
        let none_outstanding : s.worker.reads ≡ 0 =
          open_alone inv before after (copied b f) e refl in
        let started : start_read s.worker ≡ with_reads 1 inv.c =
          restarted env s.worker inv.c inv.worker none_outstanding inv.reading.1 in
        advance inv before after (copied b f) _ _ e (rw started refl)
          (rw started (rw none_outstanding refl)) λ (bytes, from) held. held
    Step-Inv {arrived} {s} (handle before after b f w e returns) inv =
        let split : Split c0.buffer_size s.message_buffer s.remote_endpoint (before ++ after)
            (listening b f) inv.rest =
          AllHold-Split c0.buffer_size s.message_buffer s.remote_endpoint before after
            (listening b f) inv.rest
            (subst (λ hs. AllHold c0.buffer_size s.message_buffer s.remote_endpoint hs inv.rest) e
              inv.holds) in
        let (c', handles, same, kept) =
          result_before env (handle_received env b f inv.c) s.worker.reads w (
            sym (handle_received-Commutes env b f s.worker.reads inv.c)
            ∙ ap (handle_received env b f) (sym inv.worker)
            ∙ returns) in
        let taken : complete_read env (datagram split.own.0 split.own.1) inv.c ≡ returned c' =
          took_own env split.own.0 b split.own.1 f inv.c c' inv.reading
            (split.held.0 ∙ ap (λ n. take n split.own.0) (sym inv.size)) split.held.1 handles in
        record {
          handled = inv.handled ++ split.own ∷ [];
          rest = split.before ++ split.after;
          all_of =
              moved inv.handled inv.rest split.before split.after arrived split.own split.whole
                inv.all_of;
          c = c';
          reading =
              IfReturns-at _ IsReading c'
                (complete_read-IsReading env (datagram split.own.0 split.own.1) inv.c inv.reading
                  refl)
                taken;
          size =
              IfReturns-at _ (λ x. x.buffer_size ≡ inv.c.buffer_size) c'
                (complete_read_size env (datagram split.own.0 split.own.1) inv.c) taken
              ∙ inv.size;
          ran = run_one_more env inv.handled split.own c0 inv.c c' inv.ran inv.reading.0 taken;
          worker = same;
          one_read =
              let one =
                subst (λ hs. count_open {E = E} c0.buffer_size hs + s.worker.reads ≡ 1) e
                  inv.one_read in
              omega (
                arith,
                one,
                kept,
                count_open-middle {E = E} c0.buffer_size before after (listening b f),
              );
          room = inv.room;
          holds = split.rest;
          few =
              let less = subst (λ hs. length hs ≤ threads) e inv.few in
              omega (arith, less, length-middle before after (listening b f));
          in_order = λ one.
              let less = subst (λ hs. length hs ≤ threads) e inv.few in
              let alone =
                empty_of (before ++ after)
                  (omega (arith, less, one, length-middle before after (listening b f))) in
              only_in_order inv.handled inv.rest split.before split.after arrived split.own
                (none_held _ _ _ (before ++ after) (split.before ++ split.after) alone split.rest)
                split.whole (inv.in_order one);
        }

    pub Reach-Inv :
        (buffer : Bytes) (endpoint : E) {arrived : List (Bytes × E)} {s : Server W E}
        → IsReading c0
        → length buffer ≡ c0.buffer_size
        → Reach env threads c0 buffer endpoint arrived s
        → Inv arrived s
    unfolding run
    Reach-Inv buffer endpoint reading room start = record {
      handled = [];
      rest = [];
      all_of = Perm.refl [];
      c = c0;
      reading = reading;
      size = refl;
      ran = refl;
      worker = refl;
      one_read = rw reading.0 refl;
      room = room;
      holds = tt;
      few = omega arith;
      in_order = λ one. refl;
    }
    Reach-Inv buffer endpoint reading room (later reach step) =
        Step-Inv step (Reach-Inv buffer endpoint reading room reach)
