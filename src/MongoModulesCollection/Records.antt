-- ===== src/MongoModulesCollection/Records.antt =====
-- Which documents give a record.
use process_manager_service.Prelude.{arith, refl, returned, some, ℕ, ◌%◌, ◌^◌, ◌↔◌, ◌≡◌}
use process_manager_service.MongoModulesCollection.{
  Element, missing, int32, utf8, other_type, Document, ModuleRecord, view_to_module_record,
}

record_of :
    (i c a p : Element) (r : ModuleRecord)
    → view_to_module_record
        (record { module_identifier = i; connection_state = c; ip_address = a; port = p })
      ≡ returned (some r)
    → (i ≡ int32 r.identifier)
      × (c ≡ int32 r.connection_state)
      × (a ≡ utf8 r.ip_address)
      × ((port : ℕ) × (p ≡ int32 port) × (r.port ≡ port % 2 ^ 16))
unfolding view_to_module_record
record_of (int32 i) (int32 c) (utf8 a) (int32 p) r h =
    (ground arith, ground arith, ground arith, (p, refl, ground arith))
record_of (int32 i) (int32 c) (utf8 a) missing r h = absurd (ground arith)
record_of (int32 i) (int32 c) (utf8 a) (utf8 _) r h = absurd (ground arith)
record_of (int32 i) (int32 c) (utf8 a) other_type r h = absurd (ground arith)
record_of (int32 i) (int32 c) missing p r h = absurd (ground arith)
record_of (int32 i) (int32 c) (int32 _) p r h = absurd (ground arith)
record_of (int32 i) (int32 c) other_type p r h = absurd (ground arith)
record_of (int32 i) missing a p r h = absurd (ground arith)
record_of (int32 i) (utf8 _) a p r h = absurd (ground arith)
record_of (int32 i) other_type a p r h = absurd (ground arith)
record_of missing c a p r h = absurd (ground arith)
record_of (utf8 _) c a p r h = absurd (ground arith)
record_of other_type c a p r h = absurd (ground arith)

-- A document gives a record exactly when its identifier, state and port are int32 and its address
-- is text; the record has these values, the port modulo 2 ^ 16.
pub view_to_module_record_iff :
    (view : Document) (r : ModuleRecord)
    → (view_to_module_record view ≡ returned (some r)) ↔ (
        (view.module_identifier ≡ int32 r.identifier)
        × (view.connection_state ≡ int32 r.connection_state)
        × (view.ip_address ≡ utf8 r.ip_address)
        × ((port : ℕ) × (view.port ≡ int32 port) × (r.port ≡ port % 2 ^ 16)))
unfolding view_to_module_record
view_to_module_record_iff view r = (
  λ h. record_of view.module_identifier view.connection_state view.ip_address view.port r h,
  λ (ei, es, ea, (port, ep, e)). ground arith,
)
