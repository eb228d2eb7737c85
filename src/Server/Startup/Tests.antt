-- ===== src/Server/Startup/Tests.antt =====
-- packages/@twokeys/server/src/util/startup.ts for an administrator and for others.
use keys.Prelude.{
  none, some, Option, List, [], ◌∷◌, String, ◌≡◌, refl, ◌⊎◌, Result, ok, throws, snoc,
}
use keys.Core.Logger.{exit, Outside, Logger, new_logger, log_with, log_debug}
use keys.Server.Startup.{is_admin, startup_scripts, test_fltmc}
use keys.Server.Startup.Laws.{IsAdmin, startup_scripts-refuses_iff}

abbrev security_log : Outside (List String)
security_log = record {
  env = λ name. none;
  argv = [];
  console = record { log = λ t s. snoc s t; warn = λ t s. snoc s t; error = λ t s. snoc s t };
  today = λ s. "now";
  paint = λ level colour text. text;
}

abbrev security_logger : Logger (List String)
security_logger =
    new_logger security_log (record { name = some "security"; argv = none; logging_methods = none })

-- Every program runs, or only the query is not there.
abbrev all_run : String → List String → Result (Option String) (Unit {0})
all_run name args = ok tt

abbrev none_there : String → List String → Result (Option String) (Unit {0})
none_there name args = throws (some "ENOENT")

abbrev no_stack : String → Option String
no_stack m = none

not_admin :
    startup_scripts security_log security_logger none_there "win32" no_stack []
    ≡ (ok tt, "now security info Checking if NOT running as admin..." ∷ [])
unfolding startup_scripts is_admin test_fltmc log_with log_debug new_logger
not_admin = refl

elsewhere : (startup_scripts security_log security_logger all_run "linux" no_stack []).0 ≡ ok tt
unfolding startup_scripts is_admin
elsewhere = refl

startup_scripts-refuses_iff_example :
    (((startup_scripts security_log security_logger all_run "win32" no_stack []).0
        ≡ throws (exit 1))
      × IsAdmin security_log security_logger all_run "win32" no_stack)
    ⊎ (((startup_scripts security_log security_logger all_run "win32" no_stack []).0 ≡ ok tt)
        × (¬ IsAdmin security_log security_logger all_run "win32" no_stack))
startup_scripts-refuses_iff_example =
    startup_scripts-refuses_iff security_log security_logger all_run "win32" no_stack []
