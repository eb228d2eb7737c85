-- ===== src/Core/Logger.antt =====
-- packages/@twokeys/core/src/logger.ts and error.ts. S is the state of what is outside the logger: the
-- clock, and what the logging methods write to. `paint` is chalk's colouring at a level, `today` the
-- text of the date and the time.
pub mod Laws
mod Tests
use Prim.Native.Char.{Char, code}
use Prim.Native.Nat.{compare, Ordering}
use Prim.Native.String.{◌++◌ as append}
use keys.Prelude.{
  ℕ, Bool, true, false, not, ◌&&◌, ◌||◌, ◌==◌, Option, none, some, List, [], ◌∷◌, String, includes,
  Result, throws, if◌then◌else◌,
}

pub record LoggingMethods (S : Type 0) : Type 0 where
  pub log : String → S → S
  pub warn : String → S → S
  pub error : String → S → S

pub record Outside (S : Type 0) : Type 0 where
  -- process.env and process.argv
  pub env : String → Option String
  pub argv : List String
  -- the methods of `console`
  pub console : LoggingMethods S
  pub today : S → String
  pub paint : ℕ → String → String → String

pub record LoggerArgs (S : Type 0) : Type 0 where
  pub name : Option String
  pub argv : Option (List String)
  pub logging_methods : Option (LoggingMethods S)

pub record Logger (S : Type 0) : Type 0 where
  pub args : LoggerArgs S
  -- the level of chalk
  pub chalk : ℕ
  pub is_debug : Bool
  pub is_silent : Bool
  pub logging_methods : LoggingMethods S

pub data LogLevel : Type 0 where
  info warn err debug : LogLevel

abbrev pub level_text : LogLevel → String
level_text LogLevel.info = "info"
level_text LogLevel.warn = "warn"
level_text LogLevel.err = "err"
level_text LogLevel.debug = "debug"

-- `x === text` of an environment variable.
abbrev pub is_text : Option String → String → Bool
is_text none t = false
is_text (some s) t = s == t

abbrev pub or_else {ℓ} : {A : Type ℓ} → Option A → A → A
or_else none a = a
or_else (some b) a = b

-- process.exit
pub data Exit : Type 0 where
  exit : ℕ → Exit

pub record CodedError : Type 0 where
  pub message : String
  pub code : Option String
  -- the stack that the engine made
  pub stack : Option String

-- The constructor of CodedError, which passes the new message to that of Error.
unfoldable pub coded_message : Option String → Option String → Option String
coded_message message none = message
coded_message none (some c) = some c
coded_message (some m) (some c) = some (append c (append ": " m))

abbrev pub is_newline : Char → Bool
is_newline c = elim (compare (code c) 10) [ Ordering.eq ↦ true | _ ↦ false ]

abbrev pub onto_first : Char → List String → List String
onto_first c [] = String.◌∷◌ c String.[] ∷ []
onto_first c (w ∷ ws) = String.◌∷◌ c w ∷ ws

-- `split("\n")`
unfoldable pub split_lines : String → List String
split_lines String.[] = "" ∷ []
split_lines (String.◌∷◌ c s) =
    let rest = split_lines s in if is_newline c then "" ∷ rest else onto_first c rest

module _ {S : Type 0} (out : Outside S) where
  abbrev pub debug_wanted : List String → Bool
  debug_wanted argv =
      includes argv "--debug"
      || includes argv "--verbose"
      || includes argv "-v"
      || is_text (out.env "TWOKEYS_DEBUG") "true"
      || (is_text (out.env "NODE_ENV") "development"
          && not (is_text (out.env "TWOKEYS_DEBUG") "false"))

  abbrev pub colour_level : List String → ℕ
  colour_level argv =
      if (is_text (out.env "TWOKEYS_USE_COLOUR") "true" || includes argv "--color")
        && not (includes argv "--no-color")
      then 3
      else 0

  unfoldable pub new_logger : LoggerArgs S → Logger S
  new_logger args =
      let argv = or_else args.argv out.argv in
      record {
        args = args;
        chalk = colour_level argv;
        is_debug = debug_wanted argv;
        is_silent = includes argv "--silent" || is_text (out.env "NODE_ENV") "test";
        logging_methods = or_else args.logging_methods out.console;
      }

  module _ (l : Logger S) where
    abbrev pub name_prefix : Option String → String
    name_prefix none = ""
    name_prefix (some n) = append (out.paint l.chalk "magenta" n) " "

    abbrev pub get_prefix : String → String → S → String
    get_prefix level colour s =
        append (out.paint l.chalk "grey" (out.today s))
          (append " " (append (name_prefix l.args.name) (out.paint l.chalk colour level)))

    unfoldable pub log_with : LogLevel → String → String → (String → S → S) → S → S
    log_with level colour text method s =
        if l.is_silent
        then s
        else method (append (get_prefix (level_text level) colour s) (append " " text)) s

    abbrev pub log_info : String → S → S
    log_info text s = log_with LogLevel.info "green" text l.logging_methods.log s

    abbrev pub log_warn : String → S → S
    log_warn text s = log_with LogLevel.warn "yellow" text l.logging_methods.warn s

    abbrev pub log_err : String → S → S
    log_err text s = log_with LogLevel.err "red" text l.logging_methods.error s

    unfoldable pub log_debug : String → S → S
    log_debug text s =
        if l.is_debug then log_with LogLevel.debug "cyan" text l.logging_methods.log s else s

    -- The loop over the lines of the stack.
    unfoldable pub log_lines : List String → S → S
    log_lines [] s = s
    log_lines (x ∷ xs) s = log_lines xs (log_err x s)

    abbrev pub log_stack : Option String → S → S
    log_stack none s = s
    log_stack (some t) s = log_lines (split_lines t) (log_err "" (log_err "Full error:" s))

    unfoldable pub print_error : CodedError → S → S
    print_error e s =
        let shown = log_err "" (log_err e.message (log_err "" s)) in
        if l.is_debug then log_err "" (log_stack e.stack shown) else shown

    abbrev pub throw_noexit : CodedError → S → S
    throw_noexit e s = print_error e (
        log_warn
          "logger.throw_noexit() is depreacted.  Please just throw your errors, and let 2Keys handle it, or use logger.printError()."
          s)

    abbrev pub throw : CodedError → S → Result Exit (Unit {0}) × S
    throw e s = (
      throws (exit 1),
      throw_noexit e (
          log_warn
            "logger.throw() is depreacted.  Please just throw your errors, and let 2Keys handle it."
            s),
    )

    -- The format that the new ProgressBar gets.
    abbrev pub create_progress_bar : String → S → String
    create_progress_bar format s = append (get_prefix "info" "green" s) (append " " format)

    abbrev pub status : String → S → S
    status message s = log_info message s

    abbrev pub substatus : String → S → S
    substatus message s = log_info message s
