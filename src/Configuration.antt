-- ===== src/Configuration.antt =====
-- Source/src/ServiceConfiguration.cpp and Source/src/ServiceConfigurationReader.cpp. A JSON document is
-- what the source's lookups under "ServerConfiguration" find: a value that `get` converts to an unsigned
-- integer, one that it refuses with an exception, or nothing, which `operator[]` of a constant
-- document leaves undefined.
pub mod Reading
pub mod Instance
pub mod Printing
pub mod Tests
use process_manager_service.Prelude.{
  Bool, Outcome, if◌then◌else◌, ltb, ◌-◌, false, returned, threw, true, undefined, ℕ, ◌%◌, ◌>>=◌,
  ◌^◌,
}

-- `get` converts an integer modulo the size of the type, a boolean to 0 or 1, and a floating-point
-- number as `static_cast` does: it is truncated, and what is outside of the type is undefined. The
-- integer -1 is `negative 0`; `floating` has what is left of a number above -1 that is truncated,
-- and `floating_negative` is any other floating-point number.
pub data Field : Type 0 where
  number negative floating : ℕ → Field
  boolean : Bool → Field
  floating_negative : Field
  wrong_type : Field
  absent : Field

pub record ServerJson : Type 0 where
  pub max_message_resends_field : Field
  pub time_between_message_resends_field : Field
  pub message_buffer_size_field : Field
  pub listening_port_field : Field

pub record ServerConfiguration : Type 0 where
  pub max_message_resends : ℕ
  pub time_between_message_resends_in_seconds : ℕ
  pub message_buffer_size : ℕ
  pub listening_port : ℕ

-- One assignment of the `try` block; an exception leaves the configuration as it is then.
abbrev pub assign :
    ℕ
    → Field
    → (ℕ → ServerConfiguration)
    → ServerConfiguration
    → Outcome ServerConfiguration ServerConfiguration
assign modulus (number n) put c = returned (put (n % modulus))
assign modulus (negative n) put c = returned (put (modulus - 1 - n % modulus))
assign modulus (boolean b) put c = returned (put (if b then 1 else 0))
assign modulus (floating n) put c = if ltb n modulus then returned (put n) else undefined
assign modulus floating_negative put c = undefined
assign modulus wrong_type put c = threw c
assign modulus absent put c = undefined

unfoldable pub assign_all :
    ServerJson → ServerConfiguration → Outcome ServerConfiguration ServerConfiguration
assign_all json c = do
  c1 ← assign (2 ^ 32) json.max_message_resends_field (λ n. record c { max_message_resends = n }) c
  c2 ←
      assign (2 ^ 32) json.time_between_message_resends_field
        (λ n. record c1 { time_between_message_resends_in_seconds = n }) c1
  c3 ←
      assign (2 ^ 32) json.message_buffer_size_field (λ n. record c2 { message_buffer_size = n }) c2
  assign (2 ^ 16) json.listening_port_field (λ n. record c3 { listening_port = n }) c3

-- `catch`: the exception is logged, and the result is false. `X` has the exceptions of the caller.
abbrev pub caught :
    {X : Type 0}
    → Outcome ServerConfiguration ServerConfiguration
    → Outcome X (Bool × ServerConfiguration)
caught (returned c) = returned (true, c)
caught (threw c) = returned (false, c)
caught undefined = undefined

unfoldable pub read_from_json :
    {X : Type 0} → ServerJson → ServerConfiguration → Outcome X (Bool × ServerConfiguration)
unfolding assign_all
read_from_json json c = caught (assign_all json c)

-- `readConfig`; what it writes to the log is in Configuration/Printing.
unfoldable read_config :
    {X : Type 0} → ServerJson → ServerConfiguration → Outcome X (Bool × ServerConfiguration)
unfolding read_from_json
read_config json c = read_from_json json c

-- What `readConfiguration` finds at the path of the service's configuration file.
pub data File : Type 0 where
  not_open : File
  no_json : File
  json_file : ServerJson → File

unfoldable pub read_configuration :
    {X : Type 0} → File → ServerConfiguration → Outcome X (Bool × ServerConfiguration)
unfolding read_config
read_configuration not_open c = returned (false, c)
read_configuration no_json c = returned (false, c)
read_configuration (json_file json) c = read_config json c
