-- ===== src/Types/Kinds.antt =====
-- The kinds of identifiers, as types: the numbers of 24 bits, what is recognised as the identifier
-- of a module or of a service, and the two members of the union.
use std.Equiv.{IsEquiv, iso_to_equiv}
use mathlib.Core.HLevel.{Σ_prop_path}
use native.Mathlib.Bridge.{le_prop}
use process_manager_service.Prelude.{arith, ℕ, true, ◌/◌, ◌%◌, ◌*◌, ◌-◌, ◌<◌, ◌≡◌, ◌^◌}
use process_manager_service.Types.{
  IdentifierUnion, store, identifier, is_module_identifier, to_module_identifier,
  is_service_identifier, to_service_identifier,
}
use process_manager_service.Types.Conversion.{
  to_identifier_lem, is_identifier-to_identifier, identifier-store,
}

abbrev IsSmall : ℕ → Type 0
IsSmall n = n < 2 ^ 24

abbrev IsWord : ℕ → Type 0
IsWord n = n < 2 ^ 32

abbrev IsModule : ℕ → Type 0
IsModule n = IsWord n × (is_module_identifier n ≡ true)

abbrev IsService : ℕ → Type 0
IsService n = IsWord n × (is_service_identifier n ≡ true)

abbrev IsBytes : IdentifierUnion → Type 0
IsBytes u = (u.byte0 < 256) × (u.byte1 < 256) × (u.byte2 < 256) × (u.byte3 < 256)

module_prop : (n : ℕ) → IsProp (IsModule n)
module_prop n = hlevel le_prop

service_prop : (n : ℕ) → IsProp (IsService n)
service_prop n = hlevel le_prop

bytes_prop : (u : IdentifierUnion) → IsProp (IsBytes u)
bytes_prop u = hlevel le_prop

-- A function between two kinds.
abbrev pub restrict :
    {A B : Type 0} {P : A → Type 0} {Q : B → Type 0} (f : A → B)
    → ((a : A) → P a → Q (f a))
    → ((a : A) × P a)
    → (b : B) × Q b
restrict f k (a, p) = (f a, k a p)

restrict-IsEquiv :
    {A B : Type 0} {P : A → Type 0} {Q : B → Type 0} (f : A → B) (g : B → A)
    (k : (a : A) → P a → Q (f a)) (l : (b : B) → Q b → P (g b))
    → ((a : A) → IsProp (P a))
    → ((b : B) → IsProp (Q b))
    → ((b : B) → Q b → f (g b) ≡ b)
    → ((a : A) → P a → g (f a) ≡ a)
    → IsEquiv (restrict {Q = Q} f k)
restrict-IsEquiv f g k l prop_p prop_q there back =
    (iso_to_equiv (record {
      fun = restrict f k;
      inv = restrict g l;
      rinv = λ (b, q). Σ_prop_path prop_q (there b q);
      linv = λ (a, p). Σ_prop_path prop_p (back a p);
    })).1

pub to_module_identifier-IsModule : (n : ℕ) → IsSmall n → IsModule (to_module_identifier n)
to_module_identifier-IsModule n small =
    (ground (arith, to_identifier_lem n), ground (arith, is_identifier-to_identifier n))

pub to_service_identifier-IsService : (n : ℕ) → IsSmall n → IsService (to_service_identifier n)
to_service_identifier-IsService n small =
    (ground (arith, to_identifier_lem n), ground (arith, is_identifier-to_identifier n))

pub store-IsBytes : (n : ℕ) → IsWord n → IsBytes (store n)
unfolding store
store-IsBytes n word = (omega arith, omega arith, omega arith, omega arith)

module_number : (n : ℕ) → IsModule n → IsSmall (n - 0x2A * 2 ^ 24)
unfolding is_module_identifier store
module_number n (word, known) = ground arith

module_of_number : (n : ℕ) → IsModule n → to_module_identifier (n - 0x2A * 2 ^ 24) ≡ n
unfolding is_module_identifier store
module_of_number n h = ground (arith, to_identifier_lem (n - 0x2A * 2 ^ 24), module_number n h)

service_number : (n : ℕ) → IsService n → IsSmall (n - 0x34 * 2 ^ 24)
unfolding is_service_identifier store
service_number n (word, known) = ground arith

service_of_number : (n : ℕ) → IsService n → to_service_identifier (n - 0x34 * 2 ^ 24) ≡ n
unfolding is_service_identifier store
service_of_number n h = ground (arith, to_identifier_lem (n - 0x34 * 2 ^ 24), service_number n h)

identifier-IsWord : (u : IdentifierUnion) → IsBytes u → IsWord (identifier u)
unfolding identifier
identifier-IsWord u (b0, b1, b2, b3) = omega arith

store-identifier : (u : IdentifierUnion) → IsBytes u → store (identifier u) ≡ u
unfolding store identifier
store-identifier u (b0, b1, b2, b3) =
    let e0 : identifier u % 256 ≡ u.byte0 = omega arith in
    let e1 : identifier u / 2 ^ 8 % 256 ≡ u.byte1 = omega arith in
    let e2 : identifier u / 2 ^ 16 % 256 ≡ u.byte2 = omega arith in
    let e3 : identifier u / 2 ^ 24 % 256 ≡ u.byte3 = omega arith in
    λ i. record { byte0 = e0 i; byte1 = e1 i; byte2 = e2 i; byte3 = e3 i }

-- Converting is an equivalence from the identifiers of 24 bits to the identifiers of modules, and one
-- to the identifiers of services: each is the conversion of exactly one. Storing is an equivalence
-- from the identifiers of 32 bits to the four bytes of the union.
pub to_identifier-IsEquiv :
    IsEquiv (restrict {Q = IsModule} to_module_identifier to_module_identifier-IsModule)
    × IsEquiv (restrict {Q = IsService} to_service_identifier to_service_identifier-IsService)
    × IsEquiv (restrict {Q = IsBytes} store store-IsBytes)
to_identifier-IsEquiv = (
  restrict-IsEquiv to_module_identifier (λ n. n - 0x2A * 2 ^ 24) to_module_identifier-IsModule
      module_number (λ n. le_prop) module_prop module_of_number
      λ n small. ground (arith, to_identifier_lem n),
  restrict-IsEquiv to_service_identifier (λ n. n - 0x34 * 2 ^ 24) to_service_identifier-IsService
      service_number (λ n. le_prop) service_prop service_of_number
      λ n small. ground (arith, to_identifier_lem n),
  restrict-IsEquiv store identifier store-IsBytes identifier-IsWord (λ n. le_prop) bytes_prop
      store-identifier λ n word. identifier-store n word,
)
