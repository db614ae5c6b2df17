-- ===== src/Logging.antt =====
-- Source/include/Logging.hpp: the static log. `Logger` is what spdlog has been told: the file, the level
-- that was set, and the messages in the order of the calls with the level of each. A message is its
-- text. `opens` is whether spdlog can make the logger; where it cannot, it throws.
pub mod Laws
pub mod Tests
use process_manager_service.Prelude.{
  Bool, Bytes, List, Option, Outcome, [], if◌then◌else◌, none, returned, some, threw, ◌++◌, ◌>>=◌,
  ◌∷◌,
}

pub data LogLevel : Type 0 where
  trace_level debug_level info_level warning_level error_level critical_level : LogLevel

pub record Logger : Type 0 where
  pub file : Bytes
  pub level : LogLevel
  pub messages : List (LogLevel × Bytes)

pub data LogException : Type 0 where
  not_opened : LogException

-- "/home/kacper/Logs/" and ".log"
abbrev pub directory : Bytes
directory =
    47 ∷ 104 ∷ 111 ∷ 109 ∷ 101 ∷ 47 ∷ 107 ∷ 97 ∷ 99 ∷ 112 ∷ 101 ∷ 114 ∷ 47 ∷ 76 ∷ 111 ∷ 103 ∷ 115
    ∷ 47 ∷ []

abbrev pub extension : Bytes
extension = 46 ∷ 108 ∷ 111 ∷ 103 ∷ []

-- The constructor, which does not look at the level that it is given.
unfoldable pub new_log : Bool → Bytes → LogLevel → Outcome LogException Logger
new_log opens identifier log_level =
    if opens
    then returned (record {
      file = directory ++ (identifier ++ extension);
      level = trace_level;
      messages = [];
    })
    else threw not_opened

unfoldable pub initialize :
    Bool → Bytes → LogLevel → Option Logger → Outcome LogException (Option Logger)
unfolding new_log
initialize opens identifier log_level none =
    new_log opens identifier log_level >>= λ logger. returned (some logger)
initialize opens identifier log_level (some logger) = returned (some logger)

-- The body that the functions of the levels share.
abbrev log : LogLevel → Bytes → Option Logger → Option Logger
log level message none = none
log level message (some logger) =
    some (record logger { messages = logger.messages ++ (level, message) ∷ [] })

unfoldable pub trace : Bytes → Option Logger → Option Logger
trace message instance = log trace_level message instance

-- The overload that takes the name of a function, and leaves it out.
unfoldable pub trace_in : Bytes → Bytes → Option Logger → Option Logger
trace_in message function_name instance = log trace_level message instance

unfoldable pub debug : Bytes → Option Logger → Option Logger
debug message instance = log debug_level message instance

unfoldable pub info : Bytes → Option Logger → Option Logger
info message instance = log info_level message instance

unfoldable pub error : Bytes → Option Logger → Option Logger
error message instance = log error_level message instance

unfoldable pub critical : Bytes → Option Logger → Option Logger
critical message instance = log critical_level message instance

-- A call of the log's interface.
pub data Call : Type 0 where
  initializes : Bool → Bytes → LogLevel → Call
  traces debugs infos errors criticals : Bytes → Call
  traces_in : Bytes → Bytes → Call

unfoldable pub run_call : Call → Option Logger → Outcome LogException (Option Logger)
unfolding initialize trace trace_in debug info error critical
run_call (initializes opens identifier log_level) instance =
    initialize opens identifier log_level instance
run_call (traces message) instance = returned (trace message instance)
run_call (debugs message) instance = returned (debug message instance)
run_call (infos message) instance = returned (info message instance)
run_call (errors message) instance = returned (error message instance)
run_call (criticals message) instance = returned (critical message instance)
run_call (traces_in message function_name) instance =
    returned (trace_in message function_name instance)

unfoldable pub run_calls : List Call → Option Logger → Outcome LogException (Option Logger)
unfolding run_call
run_calls [] instance = returned instance
run_calls (call ∷ calls) instance = run_call call instance >>= run_calls calls
