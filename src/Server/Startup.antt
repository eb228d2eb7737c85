-- ===== src/Server/Startup.antt =====
-- packages/@twokeys/server/src/util/is-admin.ts and startup.ts. `execa` runs a program: it returns, or
-- throws an error with a code, if it has one. `stack_of` is the stack that the engine makes for an
-- error's message.
mod Laws
mod Tests
use keys.Prelude.{
  Bool, true, false, ◌==◌, ◌||◌, not, Option, none, some, List, [], ◌∷◌, String, Result, ok, throws,
  if◌then◌else◌,
}
use keys.Core.Logger.{
  Exit, exit, Outside, Logger, CodedError, coded_message, is_text, or_else, log_info, log_warn,
  log_err, log_debug, print_error,
}

abbrev pub attempt_at_admin : String
attempt_at_admin = "E_ADMIN_DISALLOWED"

module _ {S : Type 0} (out : Outside S) (l : Logger S)
    (execa : String → List String → Result (Option String) (Unit {0})) (platform : String)
    (stack_of : String → Option String) where
  -- Whether a program runs without an error.
  abbrev pub runs : Result (Option String) (Unit {0}) → Bool
  runs (ok u) = true
  runs (throws e) = false

  unfoldable pub test_fltmc : Bool
  test_fltmc = runs (execa "fltmc" [])

  -- `process.env.systemdrive || "C:"`
  abbrev pub drive_or_c : Option String → String
  drive_or_c none = "C:"
  drive_or_c (some d) = if d == "" then "C:" else d

  abbrev pub query_drive : Result (Option String) (Unit {0})
  query_drive = execa "fsutil" ("dirty" ∷ "query" ∷ drive_or_c (out.env "systemdrive") ∷ [])

  abbrev pub admin_allowed : Bool
  admin_allowed =
      is_text (out.env "TWOKEYS_ALLOW_ADMIN") "true" || is_text (out.env "NODE_ENV") "test"

  abbrev pub warned : S → S
  warned s =
      log_warn out l "Please ensure you understand the security risks of this before continueing." (
        log_warn out l
          "Malware could adjust your (non-admin protected) config to execute malware for privilege esculation."
          (log_warn out l "WARNING! Running as admin has been permitted!" s))

  -- The `try` of the query and its `catch`.
  abbrev pub queried : Result (Option String) (Unit {0}) → S → Bool × S
  queried (ok u) s = (true, s)
  queried (throws e) s =
      if is_text e "ENOENT"
      then (test_fltmc, log_debug out l "Falling back fltmc for testing if admin" s)
      else (false, s)

  unfoldable pub is_admin : S → Bool × S
  is_admin s =
      if not (platform == "win32")
      then (false, s)
      else if admin_allowed
      then (false, warned s)
      else queried query_drive (log_info out l "Checking if NOT running as admin..." s)

  abbrev pub admin_error : CodedError
  admin_error =
      let message =
        or_else
          (coded_message
            (some
              "Detected you're running as admin! 2Keys can't be ran as admin for security reasons (see above)!")
            (some attempt_at_admin))
          "" in
      record { message = message; code = some attempt_at_admin; stack = stack_of message }

  abbrev pub refuse : S → S
  refuse s = print_error out l admin_error (
      log_err out l "Please file an issue if you want to run 2Keys as admin." (
        log_err out l
          "This is because malware could adjust your (non-admin protected) config to execute malware for privilege esculation."
          (log_err out l "You can't run 2Keys as admin for security reasons!"
            (log_err out l "Error! Detected that you're running as admin!" s))))

  abbrev pub after_check : Bool × S → Result Exit (Unit {0}) × S
  after_check (true, s) = (throws (exit 1), refuse s)
  after_check (false, s) = (ok tt, log_debug out l "Not running as admin." s)

  unfoldable pub startup_scripts : S → Result Exit (Unit {0}) × S
  startup_scripts s = after_check (is_admin s)
