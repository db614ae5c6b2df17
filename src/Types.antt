-- ===== src/Types.antt =====
-- Source/include/Types.hpp and Source/src/Types.cpp: identifiers of modules and services.
-- An int32_t is its bit pattern below 2 ^ 32 and an int8_t its pattern below 256. The union is
-- read in little-endian order, as on the x86 hosts that the service is packaged for.
pub mod Conversion
pub mod Kinds
pub mod Tests
use process_manager_service.Prelude.{
  ℕ, ◌+◌, ◌-◌, ◌*◌, ◌/◌, ◌%◌, ◌^◌, Bool, true, false, not, ◌==◌, if◌then◌else◌,
}

abbrev module_identifier_code : ℕ
module_identifier_code = 0x2A

abbrev service_identifier_code : ℕ
service_identifier_code = 0x34

-- The int32_t -1.
abbrev pub minus_one : ℕ
minus_one = 2 ^ 32 - 1

-- The four bytes of the union; `byte3` is `bytes[3]`.
pub record IdentifierUnion : Type 0 where
  pub byte0 : ℕ
  pub byte1 : ℕ
  pub byte2 : ℕ
  pub byte3 : ℕ

-- A write of the member `identifier`.
unfoldable pub store : ℕ → IdentifierUnion
store n = record {
  byte0 = n % 256;
  byte1 = n / 2 ^ 8 % 256;
  byte2 = n / 2 ^ 16 % 256;
  byte3 = n / 2 ^ 24 % 256;
}

-- A read of the member `identifier`.
unfoldable pub identifier : IdentifierUnion → ℕ
identifier u = u.byte0 + u.byte1 * 2 ^ 8 + u.byte2 * 2 ^ 16 + u.byte3 * 2 ^ 24

unfoldable pub is_module_identifier : ℕ → Bool
unfolding store
is_module_identifier n = (store n).byte3 == module_identifier_code

unfoldable pub to_module_identifier : ℕ → ℕ
unfolding store identifier
to_module_identifier n =
    if not ((store n).byte3 == 0)
    then identifier (store minus_one)
    else identifier (record (store n) { byte3 = module_identifier_code })

-- The source assigns in the test, `if (identifierUnion.bytes[3] = 0)`: the byte is overwritten
-- and the value of the test is the byte written.
unfoldable pub can_be_module_identifier : ℕ → Bool
unfolding store
can_be_module_identifier n =
    let assigned = record (store n) { byte3 = 0 } in
    if not (assigned.byte3 == 0) then false else true

unfoldable pub can_be_service_identifier : ℕ → Bool
unfolding store
can_be_service_identifier n = (store n).byte3 == service_identifier_code

unfoldable pub is_service_identifier : ℕ → Bool
unfolding store
is_service_identifier n = (store n).byte3 == service_identifier_code

unfoldable pub to_service_identifier : ℕ → ℕ
unfolding store identifier
to_service_identifier n =
    if not ((store n).byte3 == 0)
    then identifier (store minus_one)
    else identifier (record (store n) { byte3 = service_identifier_code })

unfoldable pub get_minimal_module_identifier : ℕ
unfolding identifier
get_minimal_module_identifier =
    identifier (record { byte0 = 0; byte1 = 0; byte2 = 0; byte3 = module_identifier_code })
