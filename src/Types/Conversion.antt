-- ===== src/Types/Conversion.antt =====
-- What the conversions of Source/src/Types.cpp accept, and what they return.
use process_manager_service.Prelude.{
  refl, ◌↔◌, ◌&&◌, if◌then◌else◌, arith, ◌≤◌, false, ◌⊎◌, ◌+◌, ◌*◌, ltb, ◌<◌, ℕ, ◌^◌, ◌≡◌, true,
}
use process_manager_service.Types.{
  minus_one, store, identifier, is_module_identifier, to_module_identifier,
  can_be_module_identifier, can_be_service_identifier, is_service_identifier, to_service_identifier,
}

-- Writing the union and reading it back gives the identifier.
pub identifier-store : (n : ℕ) → n < 2 ^ 32 → identifier (store n) ≡ n
unfolding identifier store
identifier-store n h = omega arith

-- Each conversion puts its code above an identifier of 24 bits, and returns -1 for any other
-- identifier.
pub to_identifier_lem :
    (n : ℕ)
    → n < 2 ^ 32
    → (to_module_identifier n ≡ (if ltb n (2 ^ 24) then n + 0x2A * 2 ^ 24 else minus_one))
      × (to_service_identifier n ≡ (if ltb n (2 ^ 24) then n + 0x34 * 2 ^ 24 else minus_one))
unfolding to_module_identifier to_service_identifier
to_identifier_lem n h = ground arith

-- For every identifier of 32 bits, the recogniser of each kind accepts the result of its conversion
-- exactly when the identifier has 24 bits, and the recogniser of the other kind never does.
pub is_identifier-to_identifier :
    (n : ℕ)
    → n < 2 ^ 32
    → (is_module_identifier (to_module_identifier n) ≡ ltb n (2 ^ 24))
      × (is_service_identifier (to_service_identifier n) ≡ ltb n (2 ^ 24))
      × (is_service_identifier (to_module_identifier n) ≡ false)
      × (is_module_identifier (to_service_identifier n) ≡ false)
unfolding is_module_identifier is_service_identifier
is_identifier-to_identifier n h = ground (arith, to_identifier_lem n)

-- Two identifiers of 24 bits that are converted to one module identifier, or to one service
-- identifier, are the same.
to_identifier_injective :
    (m n : ℕ)
    → m < 2 ^ 24
    → n < 2 ^ 24
    → (to_module_identifier m ≡ to_module_identifier n)
      ⊎ (to_service_identifier m ≡ to_service_identifier n)
    → m ≡ n
to_identifier_injective m n hm hn e = ground (arith, to_identifier_lem m, to_identifier_lem n)

-- A converted identifier, of either kind, is not converted again: both conversions return -1.
to_identifier_twice :
    (n : ℕ)
    → n < 2 ^ 32
    → (to_module_identifier (to_module_identifier n) ≡ minus_one)
      × (to_service_identifier (to_module_identifier n) ≡ minus_one)
      × (to_module_identifier (to_service_identifier n) ≡ minus_one)
      × (to_service_identifier (to_service_identifier n) ≡ minus_one)
to_identifier_twice n h = ground (
  arith,
  to_identifier_lem n,
  to_identifier_lem (to_module_identifier n),
  to_identifier_lem (to_service_identifier n),
)

-- `canBeModuleIdentifier` accepts every identifier, while `toModuleIdentifier` refuses exactly those
-- of more than 24 bits; `canBeServiceIdentifier` accepts no identifier that `toServiceIdentifier`
-- converts, which are exactly those of 24 bits.
can_be_identifier_disagrees :
    (n : ℕ)
    → n < 2 ^ 32
    → (can_be_module_identifier n ≡ true)
      × ((to_module_identifier n ≡ minus_one) ↔ (2 ^ 24 ≤ n))
      × ((to_service_identifier n ≡ minus_one) ↔ (2 ^ 24 ≤ n))
      × (can_be_service_identifier n && ltb n (2 ^ 24) ≡ false)
unfolding can_be_module_identifier can_be_service_identifier
can_be_identifier_disagrees n h = (
  refl,
  ground (arith, to_identifier_lem n),
  ground (arith, to_identifier_lem n),
  ground (arith, to_identifier_lem n),
)
