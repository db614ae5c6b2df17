-- ===== src/Configuration/Tests.antt =====
-- Configuration files that are read, and the log of a read.
use process_manager_service.Prelude.{Bytes, [], refl, returned, some, true, ◌++◌, ◌∷◌, ℕ, ◌≡◌, ◌↔◌}
use process_manager_service.Configuration.{
  ServerJson, negative, boolean, floating, File, number, ServerConfiguration, json_file,
  read_configuration, read_from_json,
}
use process_manager_service.Logging.{Logger, trace_level}
use process_manager_service.Configuration.Printing.{read_configuration_logged}
use process_manager_service.Configuration.Printing.Written.{
  entries, read_configuration_logged-read_digits,
}
use process_manager_service.Configuration.Printing.Digits.{read_digits}
use process_manager_service.Configuration.Reading.{
  AllConvert, json_of, configuration_of, read_configuration_iff,
}

data Failure : Type 0 where
  failure : Failure

abbrev old : ServerConfiguration
old = record {
  max_message_resends = 1;
  time_between_message_resends_in_seconds = 2;
  message_buffer_size = 3;
  listening_port = 4;
}

-- Five resends, -1 seconds, a boolean for the size, and 8080.5 for the port.
abbrev odd_json : ServerJson
odd_json = json_of (number 5) (negative 0) (boolean true) (floating 8080)

read_configuration_iff_example :
    (read_configuration {X = Failure} (json_file odd_json) old
      ≡ returned (true, configuration_of 5 4294967295 1 8080))
    ↔ ((json : ServerJson) × (a b s p : ℕ) × (json_file odd_json ≡ json_file json)
        × AllConvert json a b s p
        × (configuration_of 5 4294967295 1 8080 ≡ configuration_of a b s p))
read_configuration_iff_example =
    read_configuration_iff Failure (json_file odd_json) old (configuration_of 5 4294967295 1 8080)

odd_read :
    read_configuration {X = Failure} (json_file odd_json) old
    ≡ returned (true, configuration_of 5 4294967295 1 8080)
unfolding read_configuration read_from_json
odd_read = refl

-- The log of the service "7".
abbrev logger : Logger
logger = record { file = 55 ∷ []; level = trace_level; messages = [] }

abbrev read_file : File
read_file = json_file (json_of (number 5) (number 1) (number 1024) (number 70000))

-- The digits are "5", "1" and "4464".
abbrev logged : Logger
logged = record logger { messages = entries (55 ∷ []) (53 ∷ []) (49 ∷ []) (52 ∷ 52 ∷ 54 ∷ 52 ∷ []) }

read_logged :
    read_configuration_logged {X = Failure} (55 ∷ []) [] read_file old (some logger)
    ≡ returned (true, configuration_of 5 1 1024 4464, some logged)
unfolding read_configuration_logged read_from_json
read_logged = refl

read_configuration_logged-read_digits_example :
    (read_configuration {X = Failure} read_file old
      ≡ returned (true, configuration_of 5 1 1024 4464))
    × (m t p : Bytes) × (some logged
        ≡ some (record logger { messages = [] ++ entries (55 ∷ []) m t p }))
    × (read_digits 0 m ≡ 5)
    × (read_digits 0 t ≡ 1)
    × (read_digits 0 p ≡ 4464)
read_configuration_logged-read_digits_example =
    read_configuration_logged-read_digits (55 ∷ []) [] read_file old
      (configuration_of 5 1 1024 4464) logger (some logged) read_logged
