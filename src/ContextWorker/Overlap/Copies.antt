-- ===== src/ContextWorker/Overlap/Copies.antt =====
-- What the handlers that overlap hold of the datagrams that have come.
use process_manager_service.Prelude.{
  Bytes, List, [], ap, arith, length, refl, suc, ℕ, ◌++◌, ◌+◌, ◌∷◌, ◌≡◌,
}
use process_manager_service.ContextWorker.{take}
use process_manager_service.ContextWorker.Overlap.{
  Handler, completed, received, copied, listening, receive_into, bytes_read,
}

pub take-receive_into :
    (bytes buffer : Bytes)
    → take (bytes_read bytes buffer) (receive_into bytes buffer) ≡ take (length buffer) bytes
take-receive_into [] [] = refl
take-receive_into [] (old ∷ buffer) = refl
take-receive_into (b ∷ bytes) [] = refl
take-receive_into (b ∷ bytes) (old ∷ buffer) = ap (◌∷◌ b) (take-receive_into bytes buffer)

pub length-receive_into :
    (bytes buffer : Bytes) → length (receive_into bytes buffer) ≡ length buffer
length-receive_into [] buffer = refl
length-receive_into (b ∷ bytes) [] = refl
length-receive_into (b ∷ bytes) (old ∷ buffer) = ap suc (length-receive_into bytes buffer)

module _ {E : Type 0} (size : ℕ) where
  -- What a handler holds, or is to copy, is its own datagram.
  abbrev pub Holds : Bytes → E → Handler E → Bytes × E → Type 0
  Holds buffer endpoint (completed n) (bytes, from) =
      (take n buffer ≡ take size bytes) × (endpoint ≡ from)
  Holds buffer endpoint (received b) (bytes, from) = (b ≡ take size bytes) × (endpoint ≡ from)
  Holds buffer endpoint (copied b f) (bytes, from) = (b ≡ take size bytes) × (f ≡ from)
  Holds buffer endpoint (listening b f) (bytes, from) = (b ≡ take size bytes) × (f ≡ from)

  abbrev pub AllHold : Bytes → E → List (Handler E) → List (Bytes × E) → Type 0
  AllHold buffer endpoint [] [] = Unit
  AllHold buffer endpoint [] (d ∷ ds) = ⊥
  AllHold buffer endpoint (h ∷ hs) [] = ⊥
  AllHold buffer endpoint (h ∷ hs) (d ∷ ds) =
      Holds buffer endpoint h d × AllHold buffer endpoint hs ds

  -- Whether a handler has yet to call `startRead`.
  abbrev pub is_open : Handler E → ℕ
  is_open (listening b f) = 0
  is_open _ = 1

  abbrev pub count_open : List (Handler E) → ℕ
  count_open [] = 0
  count_open (h ∷ hs) = is_open h + count_open hs

  pub count_open-middle :
      (before after : List (Handler E)) (h : Handler E)
      → count_open (before ++ h ∷ after) ≡ is_open h + count_open (before ++ after)
  count_open-middle [] after h = refl
  count_open-middle (x ∷ before) after h = omega (arith, count_open-middle before after h)

  -- Where every handler listens, the buffer and the endpoint do not matter.
  pub AllHold-listening :
      (buffer buffer' : Bytes) (endpoint endpoint' : E) (hs : List (Handler E))
      (ds : List (Bytes × E))
      → count_open hs ≡ 0
      → AllHold buffer endpoint hs ds
      → AllHold buffer' endpoint' hs ds
  AllHold-listening buffer buffer' endpoint endpoint' [] [] none_open h = tt
  AllHold-listening buffer buffer' endpoint endpoint' [] (d ∷ ds) none_open h = absurd h
  AllHold-listening buffer buffer' endpoint endpoint' (x ∷ hs) [] none_open h = absurd h
  AllHold-listening buffer buffer' endpoint endpoint' (listening b f ∷ hs) (d ∷ ds) none_open h =
      (h.0, AllHold-listening buffer buffer' endpoint endpoint' hs ds (omega arith) h.1)
  AllHold-listening buffer buffer' endpoint endpoint' (x ∷ hs) (d ∷ ds) none_open h =
      absurd (omega arith)

  pub AllHold-change :
      (buffer : Bytes) (endpoint : E) (before after : List (Handler E)) (h h' : Handler E)
      (ds : List (Bytes × E))
      → ((d : Bytes × E) → Holds buffer endpoint h d → Holds buffer endpoint h' d)
      → AllHold buffer endpoint (before ++ h ∷ after) ds
      → AllHold buffer endpoint (before ++ h' ∷ after) ds
  AllHold-change buffer endpoint [] after h h' [] k holds = absurd holds
  AllHold-change buffer endpoint [] after h h' (d ∷ ds) k holds = (k d holds.0, holds.1)
  AllHold-change buffer endpoint (x ∷ before) after h h' [] k holds = absurd holds
  AllHold-change buffer endpoint (x ∷ before) after h h' (d ∷ ds) k holds =
      (holds.0, AllHold-change buffer endpoint before after h h' ds k holds.1)

  -- The datagram of one of the handlers, and those of the others.
  pub record Split (buffer : Bytes) (endpoint : E) (others : List (Handler E)) (h : Handler E)
      (ds : List (Bytes × E)) : Type 0 where
    pub before : List (Bytes × E)
    pub own : Bytes × E
    pub after : List (Bytes × E)
    pub whole : ds ≡ before ++ own ∷ after
    pub held : Holds buffer endpoint h own
    pub rest : AllHold buffer endpoint others (before ++ after)

  pub AllHold-Split :
      (buffer : Bytes) (endpoint : E) (before after : List (Handler E)) (h : Handler E)
      (ds : List (Bytes × E))
      → AllHold buffer endpoint (before ++ h ∷ after) ds
      → Split buffer endpoint (before ++ after) h ds
  AllHold-Split buffer endpoint [] after h [] holds = absurd holds
  AllHold-Split buffer endpoint [] after h (d ∷ ds) holds = record {
    before = [];
    own = d;
    after = ds;
    whole = refl;
    held = holds.0;
    rest = holds.1;
  }
  AllHold-Split buffer endpoint (x ∷ before) after h [] holds = absurd holds
  AllHold-Split buffer endpoint (x ∷ before) after h (d ∷ ds) holds =
      let split = AllHold-Split buffer endpoint before after h ds holds.1 in
      record {
        before = d ∷ split.before;
        own = split.own;
        after = split.after;
        whole = ap (◌∷◌ d) split.whole;
        held = split.held;
        rest = (holds.0, split.rest);
      }
