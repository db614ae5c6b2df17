-- ===== src/MongoModulesCollection/Tests.antt =====
-- A document of the modules' collection.
use process_manager_service.Prelude.{[], refl, returned, some, ◌∷◌, ◌≡◌}
use process_manager_service.MongoModulesCollection.{
  Document, ModuleRecord, int32, utf8, view_to_module_record,
}

-- A port beyond a uint16_t.
abbrev stored : Document
stored = record {
  module_identifier = int32 7;
  connection_state = int32 1;
  ip_address = utf8 (49 ∷ []);
  port = int32 70000;
}

abbrev read : ModuleRecord
read = record { port = 4464; identifier = 7; connection_state = 1; ip_address = 49 ∷ [] }

view_to_module_record-stored : view_to_module_record stored ≡ returned (some read)
unfolding view_to_module_record
view_to_module_record-stored = refl
