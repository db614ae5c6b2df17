-- ===== src/Configuration/Instance.antt =====
-- The two halves of Service::Configuration, of which the reader fills the first; nothing of the program
-- calls the other's `readFromJson`. The value under "LoggingConfiguration" and "Level" is a text, one
-- that `get` refuses, or nothing, which `operator[]` of a constant document leaves undefined.
use process_manager_service.Prelude.{
  Bool, Bytes, Outcome, arith, false, refl, returned, true, undefined, ◌>>=◌, ◌↔◌, ◌≡◌,
}
use process_manager_service.Configuration.{ServerConfiguration, File, read_configuration}

pub data Level : Type 0 where
  text : Bytes → Level
  no_text : Level
  no_level : Level

pub record LoggingConfiguration : Type 0 where
  pub logging_level : Bytes

unfoldable read_level :
    {X : Type 0} → Level → LoggingConfiguration → Outcome X (Bool × LoggingConfiguration)
read_level (text level) c = returned (true, record c { logging_level = level })
read_level no_text c = returned (false, c)
read_level no_level c = undefined

pub record Configuration : Type 0 where
  pub server_configuration : ServerConfiguration
  pub logging_configuration : LoggingConfiguration

unfoldable get_server_configuration : Configuration → ServerConfiguration
get_server_configuration c = c.server_configuration

unfoldable get_logging_configuration : Configuration → LoggingConfiguration
get_logging_configuration c = c.logging_configuration

-- `Base::readConfiguration`, on the static instance.
unfoldable read_instance : {X : Type 0} → File → Configuration → Outcome X (Bool × Configuration)
unfolding read_configuration get_server_configuration
read_instance file c =
    read_configuration file (get_server_configuration c) >>= λ (read, server_configuration).
    returned (read, record c { server_configuration = server_configuration })

-- The level is read exactly where it is a text, and is then that text.
read_level_iff :
    (X : Type 0) (level : Level) (c c' : LoggingConfiguration)
    → (read_level {X = X} level c ≡ returned (true, c'))
      ↔ ((bytes : Bytes) × (level ≡ text bytes) × (c'.logging_level ≡ bytes))
unfolding read_level
read_level_iff X (text bytes) c c' =
    (λ h. (bytes, refl, ground arith), λ (other, e, level). ground arith)
read_level_iff X no_text c c' = (λ h. absurd (ground arith), λ (other, e, level). absurd cc)
read_level_iff X no_level c c' = (λ h. absurd (ground arith), λ (other, e, level). absurd cc)
