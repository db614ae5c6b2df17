-- ===== src/Configuration/Printing.antt =====
-- What `readConfiguration` writes to the log, and `ServerConfiguration::print`:
-- Source/src/ServiceConfiguration.cpp and Source/src/ServiceConfigurationReader.cpp. `to_string` is
-- std::to_string of an unsigned number below 10 ^ 10, and `what` the text of the exception that the
-- JSON library throws, where it throws one. The identifier comes as its text.
pub mod Digits
pub mod Written
use process_manager_service.Prelude.{
  Bool, Bytes, Option, Outcome, [], false, if◌then◌else◌, ltb, returned, suc, zero, ℕ, ◌%◌, ◌+◌,
  ◌/◌, ◌++◌, ◌>>=◌, ◌∷◌,
}
use process_manager_service.Logging.{Logger, error, info, trace}
use process_manager_service.Configuration.{
  ServerJson, ServerConfiguration, File, not_open, no_json, json_file, read_from_json,
}

-- The decimal digits of a number; each round cuts off the last one.
unfoldable pub digits : ℕ → ℕ → Bytes
digits zero n = []
digits (suc fuel) n =
    let rest = digits fuel (n / 10) in
    if ltb n 10 then (48 + n) ∷ [] else rest ++ (48 + n % 10) ∷ []

unfoldable pub to_string : ℕ → Bytes
unfolding digits
to_string n = digits 10 n

-- "ServerConfiguration::maxMessageResends = "
abbrev pub resends_label : Bytes
resends_label =
    83 ∷ 101 ∷ 114 ∷ 118 ∷ 101 ∷ 114 ∷ 67 ∷ 111 ∷ 110 ∷ 102 ∷ 105 ∷ 103 ∷ 117 ∷ 114 ∷ 97 ∷ 116 ∷ 105
    ∷ 111 ∷ 110 ∷ 58 ∷ 58 ∷ 109 ∷ 97 ∷ 120 ∷ 77 ∷ 101 ∷ 115 ∷ 115 ∷ 97 ∷ 103 ∷ 101 ∷ 82 ∷ 101 ∷ 115
    ∷ 101 ∷ 110 ∷ 100 ∷ 115 ∷ 32 ∷ 61 ∷ 32 ∷ []

-- "ServerConfiguration::timeBetweenMessageResendsInSeconds = "
abbrev pub time_label : Bytes
time_label =
    83 ∷ 101 ∷ 114 ∷ 118 ∷ 101 ∷ 114 ∷ 67 ∷ 111 ∷ 110 ∷ 102 ∷ 105 ∷ 103 ∷ 117 ∷ 114 ∷ 97 ∷ 116 ∷ 105
    ∷ 111 ∷ 110 ∷ 58 ∷ 58 ∷ 116 ∷ 105 ∷ 109 ∷ 101 ∷ 66 ∷ 101 ∷ 116 ∷ 119 ∷ 101 ∷ 101 ∷ 110 ∷ 77
    ∷ 101 ∷ 115 ∷ 115 ∷ 97 ∷ 103 ∷ 101 ∷ 82 ∷ 101 ∷ 115 ∷ 101 ∷ 110 ∷ 100 ∷ 115 ∷ 73 ∷ 110 ∷ 83
    ∷ 101 ∷ 99 ∷ 111 ∷ 110 ∷ 100 ∷ 115 ∷ 32 ∷ 61 ∷ 32 ∷ []

-- "ServerConfiguration::listeningPort = "
abbrev pub port_label : Bytes
port_label =
    83 ∷ 101 ∷ 114 ∷ 118 ∷ 101 ∷ 114 ∷ 67 ∷ 111 ∷ 110 ∷ 102 ∷ 105 ∷ 103 ∷ 117 ∷ 114 ∷ 97 ∷ 116 ∷ 105
    ∷ 111 ∷ 110 ∷ 58 ∷ 58 ∷ 108 ∷ 105 ∷ 115 ∷ 116 ∷ 101 ∷ 110 ∷ 105 ∷ 110 ∷ 103 ∷ 80 ∷ 111 ∷ 114
    ∷ 116 ∷ 32 ∷ 61 ∷ 32 ∷ []

-- "/opt/ProcessManager/ServicesConfigurations/"
abbrev pub directory_path : Bytes
directory_path =
    47 ∷ 111 ∷ 112 ∷ 116 ∷ 47 ∷ 80 ∷ 114 ∷ 111 ∷ 99 ∷ 101 ∷ 115 ∷ 115 ∷ 77 ∷ 97 ∷ 110 ∷ 97 ∷ 103
    ∷ 101 ∷ 114 ∷ 47 ∷ 83 ∷ 101 ∷ 114 ∷ 118 ∷ 105 ∷ 99 ∷ 101 ∷ 115 ∷ 67 ∷ 111 ∷ 110 ∷ 102 ∷ 105
    ∷ 103 ∷ 117 ∷ 114 ∷ 97 ∷ 116 ∷ 105 ∷ 111 ∷ 110 ∷ 115 ∷ 47 ∷ []

-- "Reading configuration of: "
abbrev pub reading_text : Bytes
reading_text =
    82 ∷ 101 ∷ 97 ∷ 100 ∷ 105 ∷ 110 ∷ 103 ∷ 32 ∷ 99 ∷ 111 ∷ 110 ∷ 102 ∷ 105 ∷ 103 ∷ 117 ∷ 114 ∷ 97
    ∷ 116 ∷ 105 ∷ 111 ∷ 110 ∷ 32 ∷ 111 ∷ 102 ∷ 58 ∷ 32 ∷ []

-- " service"
abbrev pub service_text : Bytes
service_text = 32 ∷ 115 ∷ 101 ∷ 114 ∷ 118 ∷ 105 ∷ 99 ∷ 101 ∷ []

-- "Failed to read configuration from json"
abbrev pub json_text : Bytes
json_text =
    70 ∷ 97 ∷ 105 ∷ 108 ∷ 101 ∷ 100 ∷ 32 ∷ 116 ∷ 111 ∷ 32 ∷ 114 ∷ 101 ∷ 97 ∷ 100 ∷ 32 ∷ 99 ∷ 111
    ∷ 110 ∷ 102 ∷ 105 ∷ 103 ∷ 117 ∷ 114 ∷ 97 ∷ 116 ∷ 105 ∷ 111 ∷ 110 ∷ 32 ∷ 102 ∷ 114 ∷ 111 ∷ 109
    ∷ 32 ∷ 106 ∷ 115 ∷ 111 ∷ 110 ∷ []

-- "Failed to open configuration file: "
abbrev pub open_text : Bytes
open_text =
    70 ∷ 97 ∷ 105 ∷ 108 ∷ 101 ∷ 100 ∷ 32 ∷ 116 ∷ 111 ∷ 32 ∷ 111 ∷ 112 ∷ 101 ∷ 110 ∷ 32 ∷ 99 ∷ 111
    ∷ 110 ∷ 102 ∷ 105 ∷ 103 ∷ 117 ∷ 114 ∷ 97 ∷ 116 ∷ 105 ∷ 111 ∷ 110 ∷ 32 ∷ 102 ∷ 105 ∷ 108 ∷ 101
    ∷ 58 ∷ 32 ∷ []

-- "Failed to read configuration: "
abbrev pub read_text : Bytes
read_text =
    70 ∷ 97 ∷ 105 ∷ 108 ∷ 101 ∷ 100 ∷ 32 ∷ 116 ∷ 111 ∷ 32 ∷ 114 ∷ 101 ∷ 97 ∷ 100 ∷ 32 ∷ 99 ∷ 111
    ∷ 110 ∷ 102 ∷ 105 ∷ 103 ∷ 117 ∷ 114 ∷ 97 ∷ 116 ∷ 105 ∷ 111 ∷ 110 ∷ 58 ∷ 32 ∷ []

unfoldable pub print : ServerConfiguration → Option Logger → Option Logger
unfolding trace to_string
print c log =
    let log1 = trace (resends_label ++ to_string c.max_message_resends) log in
    let log2 = trace (time_label ++ to_string c.time_between_message_resends_in_seconds) log1 in
    trace (port_label ++ to_string c.listening_port) log2

-- `readFromJson` logs the exception that it catches, and `readConfig` prints what has been read.
unfoldable pub report :
    Bytes → Option Logger → Bool × ServerConfiguration → Bool × ServerConfiguration × Option Logger
unfolding print error
report what log (read, c) = (read, c, if read then print c log else error (read_text ++ what) log)

unfoldable read_config_logged :
    {X : Type 0}
    → Bytes
    → ServerJson
    → ServerConfiguration
    → Option Logger
    → Outcome X (Bool × ServerConfiguration × Option Logger)
unfolding report
read_config_logged what json c log = read_from_json json c >>= λ r. returned (report what log r)

unfoldable pub read_configuration_logged :
    {X : Type 0}
    → Bytes
    → Bytes
    → File
    → ServerConfiguration
    → Option Logger
    → Outcome X (Bool × ServerConfiguration × Option Logger)
unfolding read_config_logged info error
read_configuration_logged identifier what not_open c log =
    returned (false, c, error (open_text ++ ((directory_path ++ identifier) ++ service_text)) log)
read_configuration_logged identifier what no_json c log =
    returned (
      false,
      c,
      error (json_text ++ what) (info (reading_text ++ (identifier ++ service_text)) log),
    )
read_configuration_logged identifier what (json_file json) c log =
    read_config_logged what json c (info (reading_text ++ (identifier ++ service_text)) log)
