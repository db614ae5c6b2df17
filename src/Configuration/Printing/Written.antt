-- ===== src/Configuration/Printing/Written.antt =====
-- What the log holds after the configuration has been read.
use process_manager_service.Prelude.{
  append_assoc, arith, Bool, Bytes, List, Option, Outcome, [], ap, false, refl, returned, some,
  threw, true, undefined, ℕ, ◌<◌, ◌^◌, ◌++◌, ◌>>=◌, ◌∙◌, ◌∷◌, ◌≡◌,
}
use process_manager_service.Logging.{trace_level, info_level, LogLevel, Logger, info}
use process_manager_service.Configuration.{
  Field, number, negative, boolean, floating, floating_negative, wrong_type, absent,
  ServerConfiguration, File, json_file, no_json, not_open, read_configuration, read_from_json,
}
use process_manager_service.Configuration.Reading.{Converts, read_configuration_iff}
use process_manager_service.Configuration.Printing.{
  to_string, resends_label, time_label, port_label, reading_text, service_text, print, report,
  read_configuration_logged,
}
use process_manager_service.Configuration.Printing.Digits.{read_digits, read_digits-to_string}

-- A successful read has printed the configuration that it returns.
printed :
    {X : Type 0} (r : Outcome X (Bool × ServerConfiguration)) (what : Bytes)
    (log log' : Option Logger) (c' : ServerConfiguration)
    → (r >>= λ x. returned (report what log x)) ≡ returned (true, c', log')
    → (r ≡ returned (true, c')) × (log' ≡ print c' log)
unfolding report
printed (returned (true, c1)) what log log' c' h = ground arith
printed (returned (false, c1)) what log log' c' h = absurd (ground arith)
printed (threw x) what log log' c' h = absurd (ground arith)
printed undefined what log log' c' h = absurd (ground arith)

-- The entries of a successful read.
abbrev pub entries : Bytes → Bytes → Bytes → Bytes → List (LogLevel × Bytes)
entries identifier m t p =
    (info_level, reading_text ++ (identifier ++ service_text))
    ∷ (trace_level, resends_label ++ m)
    ∷ (trace_level, time_label ++ t)
    ∷ (trace_level, port_label ++ p)
    ∷ []

four_entries :
    {A : Type 0} (xs : List A) (a b c d : A)
    → (((xs ++ a ∷ []) ++ b ∷ []) ++ c ∷ []) ++ d ∷ [] ≡ xs ++ a ∷ b ∷ c ∷ d ∷ []
four_entries xs a b c d =
    rw (append_assoc ((xs ++ a ∷ []) ++ b ∷ []), append_assoc (xs ++ a ∷ []), append_assoc xs) refl

read_configuration_logged-print :
    {X : Type 0} (identifier what : Bytes) (file : File) (c c' : ServerConfiguration)
    (logger : Logger) (log' : Option Logger)
    → read_configuration_logged {X = X} identifier what file c (some logger)
      ≡ returned (true, c', log')
    → (read_configuration {X = X} file c ≡ returned (true, c'))
      × (log' ≡ print c' (info (reading_text ++ (identifier ++ service_text)) (some logger)))
unfolding read_configuration_logged read_configuration
read_configuration_logged-print identifier what not_open c c' logger log' h = absurd (ground arith)
read_configuration_logged-print identifier what no_json c c' logger log' h = absurd (ground arith)
read_configuration_logged-print identifier what (json_file json) c c' logger log' h =
    printed (read_from_json json c) what
      (info (reading_text ++ (identifier ++ service_text)) (some logger)) log' c' h

-- What a field gives is below the size of its type.
Converts-lt :
    (modulus : ℕ) (f : Field) (v : ℕ)
    → 1 < modulus
    → modulus < 10 ^ 10
    → Converts modulus f v
    → v < 10 ^ 10
Converts-lt modulus (number n) v some_bit small h = omega (arith, h)
Converts-lt modulus (negative n) v some_bit small h = omega (arith, h)
Converts-lt modulus (boolean true) v some_bit small h = omega (arith, h)
Converts-lt modulus (boolean false) v some_bit small h = omega (arith, h)
Converts-lt modulus (floating n) v some_bit small h = omega (arith, h)
Converts-lt modulus floating_negative v some_bit small h = absurd h
Converts-lt modulus wrong_type v some_bit small h = absurd h
Converts-lt modulus absent v some_bit small h = absurd h

module _ {X : Type 0} where
  -- When the configuration has been read, it is what `read_configuration` gives without a log; the
  -- log, which there is, has gained an information on the service and one trace for each field but
  -- the size of the buffer, and the digits after a trace's label are read back as its field.
  pub read_configuration_logged-read_digits :
      (identifier what : Bytes) (file : File) (c c' : ServerConfiguration) (logger : Logger)
      (log' : Option Logger)
      → read_configuration_logged {X = X} identifier what file c (some logger)
        ≡ returned (true, c', log')
      → (read_configuration {X = X} file c ≡ returned (true, c'))
        × (m t p : Bytes) × (log'
            ≡ some (record logger { messages = logger.messages ++ entries identifier m t p }))
        × (read_digits 0 m ≡ c'.max_message_resends)
        × (read_digits 0 t ≡ c'.time_between_message_resends_in_seconds)
        × (read_digits 0 p ≡ c'.listening_port)
  unfolding print info
  read_configuration_logged-read_digits identifier what file c c' logger log' h =
      let (read, log_eq) =
        read_configuration_logged-print identifier what file c c' logger log' h in
      let (json, a, b, s, p, file_eq, (ha, hb, hs, hp), c_eq) =
        (read_configuration_iff X file c c').0 read in
      (
        read,
        to_string c'.max_message_resends,
        to_string c'.time_between_message_resends_in_seconds,
        to_string c'.listening_port,
        log_eq
            ∙ ap (λ ms. some (record logger { messages = ms }))
                (four_entries logger.messages _ _ _ _),
        read_digits-to_string _ (rw c_eq (Converts-lt (2 ^ 32) _ a (omega arith) (omega arith) ha)),
        read_digits-to_string _ (rw c_eq (Converts-lt (2 ^ 32) _ b (omega arith) (omega arith) hb)),
        read_digits-to_string _ (rw c_eq (Converts-lt (2 ^ 16) _ p (omega arith) (omega arith) hp)),
      )
