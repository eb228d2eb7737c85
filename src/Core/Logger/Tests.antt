-- ===== src/Core/Logger/Tests.antt =====
-- packages/@twokeys/core/src/logger.ts on a console that keeps what is written to it.
use keys.Prelude.{true, none, some, List, [], ◌∷◌, String, ◌≡◌, refl, snoc, if◌then◌else◌}
use keys.Core.Logger.{
  LoggingMethods, Outside, Logger, LoggerArgs, new_logger, coded_message, log_with, log_debug,
  CodedError,
}
use keys.Core.Logger.Laws.{
  call, warn, debug, tell_status, show_error, all_messages, deliver_all, run, run_lem,
}

abbrev Written : Type 0
Written = List (String × String)

abbrev console : LoggingMethods Written
console = record {
  log = λ text s. snoc s ("log", text);
  warn = λ text s. snoc s ("warn", text);
  error = λ text s. snoc s ("error", text);
}

abbrev terminal : Outside Written
terminal = record {
  env = λ name. none;
  argv = "2keys" ∷ "--verbose" ∷ [];
  console = console;
  today = λ s. "now";
  paint = λ level colour text. text;
}

abbrev named_api : LoggerArgs Written
named_api = record { name = some "api"; argv = none; logging_methods = none }

abbrev api_logger : Logger Written
api_logger = new_logger terminal named_api

abbrev not_found : CodedError
not_found = record { message = "Not found"; code = none; stack = some "Error\n at f" }

with_code :
    coded_message (some "running as admin") (some "E_ADMIN") ≡ some "E_ADMIN: running as admin"
unfolding coded_message
with_code = refl

debugging : api_logger.is_debug ≡ true
unfolding new_logger
debugging = refl

written :
    run terminal api_logger (warn "careful" ∷ debug "found" ∷ []) []
    ≡ ("warn", "now api warn careful") ∷ ("log", "now api debug found") ∷ []
unfolding run call new_logger log_with log_debug
written = refl

run_lem_example : run terminal api_logger (tell_status "start" ∷ show_error not_found ∷ []) [] ≡ (
    if api_logger.is_silent
    then []
    else deliver_all terminal api_logger
        (all_messages api_logger.is_debug (tell_status "start" ∷ show_error not_found ∷ []))
        [])
run_lem_example = run_lem terminal api_logger (tell_status "start" ∷ show_error not_found ∷ []) []
