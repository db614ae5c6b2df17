-- ===== src/Event/Ids.antt =====
-- The loop `getNewEventID` that both event caches run over the ids of their events, and the order
-- in which ids are given out. An id is a uint32_t.
use process_manager_service.Prelude.{
  length, ◌==◌, All, ◌≡◌, ◌^◌, ℕ, ◌≢◌, List, suc, ◌%◌, ◌∷◌, if◌then◌else◌, ◌+◌, arith, ◌≤◌, ◌++◌,
  ==_iff, refl, inl, inr, ◌⊎◌, ◌↔◌, ◌∙◌, [], ◌<◌,
}

abbrev pub id_count : ℕ
id_count = 2 ^ 32

-- Add one as a uint32_t does.
abbrev next : ℕ → ℕ
next n = (n + 1) % id_count

unfoldable pub new_event_id : List ℕ → ℕ → ℕ
new_event_id [] available = available
new_event_id (id ∷ ids) available =
    if id == available then new_event_id ids (next available) else available

-- The ids count up from `start`, with no gap.
abbrev pub CountUp : ℕ → List ℕ → Type 0
CountUp start [] = Unit {0}
CountUp start (id ∷ ids) = (id ≡ start) × CountUp (start + 1) ids

pub new_event_id-CountUp :
    (ids : List ℕ) (start : ℕ)
    → CountUp start ids
    → start + length ids < id_count
    → new_event_id ids start ≡ start + length ids
unfolding new_event_id
new_event_id-CountUp [] start h b = omega arith
new_event_id-CountUp (id ∷ ids) start h b =
    rw ((==_iff id start).1 h.0, wrap)
      (new_event_id-CountUp ids (start + 1) h.1 (omega arith) ∙ omega arith)
  where
    wrap : (start + 1) % id_count ≡ start + 1
    wrap = omega arith

pub CountUp-snoc :
    (ids : List ℕ) (start : ℕ)
    → CountUp start ids
    → CountUp start (ids ++ (start + length ids) ∷ [])
CountUp-snoc [] start h = (omega arith, tt)
CountUp-snoc (id ∷ ids) start h = (h.0, rw shift (CountUp-snoc ids (start + 1) h.1))
  where
    shift : start + suc (length ids) ≡ start + 1 + length ids
    shift = omega arith

CountUp-below :
    (ids : List ℕ) (start n : ℕ) → CountUp start ids → n < start → All (λ id. id ≢ n) ids
CountUp-below [] start n h b = tt
CountUp-below (id ∷ ids) start n h b =
    (omega arith, CountUp-below ids (start + 1) n h.1 (omega arith))

pub CountUp-above :
    (ids : List ℕ) (start n : ℕ)
    → CountUp start ids
    → start + length ids ≤ n
    → All (λ id. id ≢ n) ids
CountUp-above [] start n h b = tt
CountUp-above (id ∷ ids) start n h b =
    (omega arith, CountUp-above ids (start + 1) n h.1 (omega arith))

-- The id wraps where the ids fill all of a uint32_t.
new_event_id-full :
    (id : ℕ) (ids : List ℕ) (start : ℕ)
    → CountUp start (id ∷ ids)
    → start + suc (length ids) ≡ id_count
    → new_event_id (id ∷ ids) start ≡ 0
unfolding new_event_id
new_event_id-full id [] start h full =
    let wraps : (start + 1) % id_count ≡ 0 = omega arith in rw ((==_iff id start).1 h.0, wraps) refl
new_event_id-full id (id' ∷ ids) start h full =
    let next_id : (start + 1) % id_count ≡ start + 1 = omega arith in
    rw ((==_iff id start).1 h.0, next_id) (new_event_id-full id' ids (start + 1) h.1 (omega arith))

full_or_not : (n : ℕ) → n ≤ id_count → (n ≡ id_count) ⊎ (n < id_count)
full_or_not n h = omega arith

-- Where the ids count up from 0, the new id is their number, taken modulo 2 ^ 32.
pub new_event_id-modulo :
    (ids : List ℕ)
    → CountUp 0 ids
    → length ids ≤ id_count
    → new_event_id ids 0 ≡ length ids % id_count
new_event_id-modulo [] h b = unfold new_event_id in omega arith
new_event_id-modulo (id ∷ ids) h b = elim (full_or_not (suc (length ids)) b) [
  | inl full ↦ new_event_id-full id ids 0 h (omega arith) ∙ omega arith
  | inr below ↦ new_event_id-CountUp (id ∷ ids) 0 h (omega arith) ∙ omega arith
]

pub CountUp-holds :
    (ids : List ℕ) (start n : ℕ)
    → CountUp start ids
    → start ≤ n
    → n < start + length ids
    → All (λ id. id ≢ n) ids
    → ⊥
CountUp-holds [] start n h from below fresh = omega arith
CountUp-holds (id ∷ ids) start n h from below fresh = elim (here_or_later start n from) [
  | inl here ↦ fresh.0 (h.0 ∙ here)
  | inr later ↦ CountUp-holds ids (start + 1) n h.1 (omega arith) (omega arith) fresh.1
]
  where
    here_or_later : (i n : ℕ) → i ≤ n → (i ≡ n) ⊎ (i + 1 ≤ n)
    here_or_later i n h = omega arith

pub new_event_id-fresh :
    (ids : List ℕ)
    → CountUp 0 ids
    → length ids ≤ id_count
    → All (λ id. id ≢ new_event_id ids 0) ids ↔ (length ids < id_count)
new_event_id-fresh ids h b =
    let value = new_event_id-modulo ids h b in
    (
      λ fresh. elim (full_or_not (length ids) b) [
        | inl full ↦
            absurd (
              CountUp-holds ids 0 (new_event_id ids 0) h (omega arith) (omega (arith, value)) fresh)
        | inr below ↦ below
      ],
      λ below. CountUp-above ids 0 (new_event_id ids 0) h (omega (arith, value)),
    )
