-- ===== src/Prelude/Text.antt =====
-- std::string as a list of bytes: `==` and C++20 `ends_with`.
use Prim.Native.Nat.{ℕ, zero, suc, ◌-◌}
use mathlib.Core.Path.{◌≡◌, refl, ap, ◌∙◌}
use mathlib.Core.Bool.{Bool, true, false, ◌&&◌}
use mathlib.Core.List.{List, [], ◌∷◌, ◌++◌}
use native.Mathlib.Omega.{arith}
use process_manager_service.Prelude.Tests.{leb, ◌==◌}
use process_manager_service.Prelude.Lists.{length, length-append}

abbrev pub Bytes : Type 0
Bytes = List ℕ

unfoldable pub bytes_eq : Bytes → Bytes → Bool
bytes_eq [] [] = true
bytes_eq [] (y ∷ ys) = false
bytes_eq (x ∷ xs) [] = false
bytes_eq (x ∷ xs) (y ∷ ys) = x == y && bytes_eq xs ys

pub bytes_eq_refl : (s : Bytes) → bytes_eq s s ≡ true
unfolding bytes_eq
bytes_eq_refl [] = refl
bytes_eq_refl (x ∷ xs) = ground (arith, bytes_eq_refl xs)

eq_of_bytes_eq : (s t : Bytes) → bytes_eq s t ≡ true → s ≡ t
unfolding bytes_eq
eq_of_bytes_eq [] [] h = refl
eq_of_bytes_eq [] (y ∷ ys) h = cc
eq_of_bytes_eq (x ∷ xs) [] h = cc
eq_of_bytes_eq (x ∷ xs) (y ∷ ys) h = ground (arith, eq_of_bytes_eq xs ys)

-- The text from position `n` on.
skip : ℕ → Bytes → Bytes
skip zero s = s
skip (suc n) [] = []
skip (suc n) (x ∷ xs) = skip n xs

unfoldable pub ends_with : Bytes → Bytes → Bool
unfolding skip bytes_eq
ends_with s suffix =
    leb (length suffix) (length s) && bytes_eq (skip (length s - length suffix) s) suffix

skip-append : (p s : Bytes) → skip (length p) (p ++ s) ≡ s
unfolding skip
skip-append [] s = refl
skip-append (x ∷ p) s = skip-append p s

first : ℕ → Bytes → Bytes
first zero s = []
first (suc n) [] = []
first (suc n) (x ∷ xs) = x ∷ first n xs

first-append-skip : (n : ℕ) (s : Bytes) → s ≡ first n s ++ skip n s
unfolding first skip
first-append-skip zero s = refl
first-append-skip (suc n) [] = refl
first-append-skip (suc n) (x ∷ xs) = ap (◌∷◌ x) (first-append-skip n xs)

-- The test decides whether the text has the suffix.
ends_with-append : (p s : Bytes) → ends_with (p ++ s) s ≡ true
unfolding ends_with
ends_with-append p s = ground (arith, length-append p s, skip-append p s, bytes_eq_refl s, cut)
  where
    cut : skip (length (p ++ s) - length s) (p ++ s) ≡ s
    cut = rw (length-append p s) (ap (λ n. skip n (p ++ s)) (omega arith) ∙ skip-append p s)

suffix_of_ends_with : (s t : Bytes) → ends_with s t ≡ true → (p : Bytes) × (s ≡ p ++ t)
unfolding ends_with
suffix_of_ends_with s t h =
    let n : ℕ = length s - length t in
    (first n s, first-append-skip n s ∙ ap (◌++◌ (first n s)) (eq_of_bytes_eq _ t (ground arith)))
