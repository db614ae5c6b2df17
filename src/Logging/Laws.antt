-- ===== src/Logging/Laws.antt =====
-- What a history of calls leaves in the log.
use process_manager_service.Prelude.{
  Bytes, List, Option, Outcome, [], append-nil, append_assoc, false, if◌then◌else◌, none, refl,
  returned, some, threw, true, ◌++◌, ◌∙◌, ◌∷◌, ◌≡◌,
}
use process_manager_service.Logging.{
  trace_level, debug_level, info_level, error_level, critical_level, LogLevel, Logger, LogException,
  Call, directory, extension, initializes, traces, debugs, infos, errors, criticals, traces_in,
  not_opened, run_calls,
}

-- What the calls ask to be written, with its level.
abbrev pub written : List Call → List (LogLevel × Bytes)
written [] = []
written (initializes opens identifier log_level ∷ calls) = written calls
written (traces message ∷ calls) = (trace_level, message) ∷ written calls
written (debugs message ∷ calls) = (debug_level, message) ∷ written calls
written (infos message ∷ calls) = (info_level, message) ∷ written calls
written (errors message ∷ calls) = (error_level, message) ∷ written calls
written (criticals message ∷ calls) = (critical_level, message) ∷ written calls
written (traces_in message function_name ∷ calls) = (trace_level, message) ∷ written calls

-- The log after the first initialization, with what is written after it.
abbrev pub log_of : Bytes → List Call → Logger
log_of identifier calls = record {
  file = directory ++ (identifier ++ extension);
  level = trace_level;
  messages = written calls;
}

-- From a program without a log: what is written before the first initialization is lost.
abbrev pub from_the_first : List Call → Outcome LogException (Option Logger)
from_the_first [] = returned none
from_the_first (initializes opens identifier log_level ∷ calls) =
    if opens then returned (some (log_of identifier calls)) else threw not_opened
from_the_first (traces message ∷ calls) = from_the_first calls
from_the_first (debugs message ∷ calls) = from_the_first calls
from_the_first (infos message ∷ calls) = from_the_first calls
from_the_first (errors message ∷ calls) = from_the_first calls
from_the_first (criticals message ∷ calls) = from_the_first calls
from_the_first (traces_in message function_name ∷ calls) = from_the_first calls

passed_on :
    (entry : LogLevel × Bytes) (calls : List Call) (logger : Logger)
    → ◌≡◌ {A = Outcome LogException (Option Logger)}
        (returned
          (some (record logger { messages = (logger.messages ++ entry ∷ []) ++ written calls })))
        (returned (some (record logger { messages = logger.messages ++ entry ∷ written calls })))
passed_on entry calls logger = rw (append_assoc logger.messages (entry ∷ []) (written calls)) refl

run_calls-written :
    (calls : List Call) (logger : Logger)
    → run_calls calls (some logger)
      ≡ returned (some (record logger { messages = logger.messages ++ written calls }))
unfolding run_calls
run_calls-written [] logger = rw (append-nil logger.messages) refl
run_calls-written (initializes opens identifier log_level ∷ calls) logger =
    run_calls-written calls logger
run_calls-written (traces message ∷ calls) logger =
    run_calls-written calls _ ∙ passed_on (trace_level, message) calls logger
run_calls-written (debugs message ∷ calls) logger =
    run_calls-written calls _ ∙ passed_on (debug_level, message) calls logger
run_calls-written (infos message ∷ calls) logger =
    run_calls-written calls _ ∙ passed_on (info_level, message) calls logger
run_calls-written (errors message ∷ calls) logger =
    run_calls-written calls _ ∙ passed_on (error_level, message) calls logger
run_calls-written (criticals message ∷ calls) logger =
    run_calls-written calls _ ∙ passed_on (critical_level, message) calls logger
run_calls-written (traces_in message function_name ∷ calls) logger =
    run_calls-written calls _ ∙ passed_on (trace_level, message) calls logger

-- From a program without a log, any history of calls: what is written before the first call of
-- `initialize` is lost. That call names the file, or throws where the logger cannot be made; the
-- later ones change nothing. Everything written after it is passed on, in order, to a logger that
-- lets every level through, whatever level a call of `initialize` asks for.
pub run_calls_lem : (calls : List Call) → run_calls calls none ≡ from_the_first calls
unfolding run_calls
run_calls_lem [] = refl
run_calls_lem (initializes true identifier log_level ∷ calls) = run_calls-written calls _
run_calls_lem (initializes false identifier log_level ∷ calls) = refl
run_calls_lem (traces message ∷ calls) = run_calls_lem calls
run_calls_lem (debugs message ∷ calls) = run_calls_lem calls
run_calls_lem (infos message ∷ calls) = run_calls_lem calls
run_calls_lem (errors message ∷ calls) = run_calls_lem calls
run_calls_lem (criticals message ∷ calls) = run_calls_lem calls
run_calls_lem (traces_in message function_name ∷ calls) = run_calls_lem calls
