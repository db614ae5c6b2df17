-- ===== src/MongoModulesCollection.antt =====
-- Source/include/MongoModulesCollection.hpp and Source/src/MongoModulesCollection.cpp: records of
-- modules in the database. A BSON document is what the four lookups of the source find in it; the
-- driver's `type()` throws on an element that is missing. An int32_t is its bit pattern.
pub mod Records
pub mod Tests
use process_manager_service.Prelude.{
  Bytes, Option, Outcome, none, returned, some, threw, ℕ, ◌%◌, ◌>>=◌, ◌^◌,
}

pub data Element : Type 0 where
  missing : Element
  int32 : ℕ → Element
  utf8 : Bytes → Element
  other_type : Element

pub record Document : Type 0 where
  pub module_identifier : Element
  pub connection_state : Element
  pub ip_address : Element
  pub port : Element

pub record ModuleRecord : Type 0 where
  pub port : ℕ
  pub identifier : ℕ
  pub connection_state : ℕ
  pub ip_address : Bytes

pub data QueryException : Type 0 where
  unset_element query_failed : QueryException

-- `e.type() != k_int32` is an error that is logged, and the record stays empty.
abbrev with_int32 {ℓ} :
    {A : Type ℓ}
    → Element
    → (ℕ → Outcome QueryException (Option A))
    → Outcome QueryException (Option A)
with_int32 missing f = threw unset_element
with_int32 (int32 n) f = f n
with_int32 (utf8 s) f = returned none
with_int32 other_type f = returned none

abbrev with_utf8 {ℓ} :
    {A : Type ℓ}
    → Element
    → (Bytes → Outcome QueryException (Option A))
    → Outcome QueryException (Option A)
with_utf8 missing f = threw unset_element
with_utf8 (int32 n) f = returned none
with_utf8 (utf8 s) f = f s
with_utf8 other_type f = returned none

-- The port of a record is a uint16_t.
unfoldable pub view_to_module_record : Document → Outcome QueryException (Option ModuleRecord)
view_to_module_record view = with_int32 view.module_identifier λ identifier.
    with_int32 view.connection_state λ state. with_utf8 view.ip_address λ address.
      with_int32 view.port λ port. returned (
        some (record {
          port = port % 2 ^ 16;
          identifier = identifier;
          connection_state = state;
          ip_address = address;
        }))

-- `find_one` is the driver's query by the identifier of a module.
unfoldable pub get_module :
    (ℕ → Outcome QueryException (Option Document))
    → ℕ
    → Outcome QueryException (Option ModuleRecord)
unfolding view_to_module_record
get_module find_one identifier = find_one identifier >>= λ result. elim result [
  | none ↦ returned none
  | some document ↦ view_to_module_record document
]
