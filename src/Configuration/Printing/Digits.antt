-- ===== src/Configuration/Printing/Digits.antt =====
-- The number that decimal digits stand for, and the digits of `to_string`.
use process_manager_service.Prelude.{
  Bytes, [], arith, refl, suc, zero, ℕ, ◌%◌, ◌*◌, ◌+◌, ◌-◌, ◌/◌, ◌++◌, ◌<◌, ◌^◌, ◌∷◌, ◌≡◌,
}
use process_manager_service.Configuration.Printing.{digits, to_string}

-- The number that is read digit after digit.
unfoldable pub read_digits : ℕ → Bytes → ℕ
read_digits n [] = n
read_digits n (d ∷ ds) = read_digits (n * 10 + (d - 48)) ds

read_digits-append :
    (n : ℕ) (ds : Bytes) (d : ℕ) → read_digits n (ds ++ d ∷ []) ≡ read_digits n ds * 10 + (d - 48)
unfolding read_digits
read_digits-append n [] d = refl
read_digits-append n (c ∷ ds) d = read_digits-append (n * 10 + (c - 48)) ds d

small_digits : (fuel n : ℕ) → n < 10 ^ suc fuel → n / 10 < 10 ^ fuel
small_digits fuel n h = omega (arith, h)

read_digits-digits : (fuel n : ℕ) → n < 10 ^ fuel → read_digits 0 (digits fuel n) ≡ n
unfolding read_digits digits
read_digits-digits zero n h = omega (arith, h)
read_digits-digits (suc fuel) n h = ground (
  arith,
  read_digits-append 0 (digits fuel (n / 10)) (48 + n % 10),
  read_digits-digits fuel (n / 10) (small_digits fuel n h),
)

-- `to_string` writes a number below 10 ^ 10 in full.
pub read_digits-to_string : (n : ℕ) → n < 10 ^ 10 → read_digits 0 (to_string n) ≡ n
unfolding to_string
read_digits-to_string n h = read_digits-digits 10 n h
