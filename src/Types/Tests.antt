-- ===== src/Types/Tests.antt =====
-- Runs of the conversions of Source/src/Types.cpp.
use process_manager_service.Prelude.{◌≡◌, refl}
use process_manager_service.Types.{
  to_module_identifier, to_service_identifier, get_minimal_module_identifier,
}

-- The identifier that the example service of Tests/ExampleServicesTests takes.
example_service : to_service_identifier 1 ≡ 872415233
unfolding to_service_identifier
example_service = refl

minimal_module : get_minimal_module_identifier ≡ to_module_identifier 0
unfolding get_minimal_module_identifier to_module_identifier
minimal_module = refl
