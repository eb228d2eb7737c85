-- ===== src/Core/Logger/Laws.antt =====
-- What a logger of packages/@twokeys/core/src/logger.ts writes in a sequence of calls.
use Prim.Native.String.{◌++◌ as append}
use keys.Prelude.{
  Bool, true, false, List, [], ◌∷◌, ◌++◌, Option, none, some, String, ◌≡◌, refl, sym, ap, ◌∙◌,
  Bool-cases, inl, inr, map, if◌then◌else◌,
}
use keys.Core.Logger.{
  Outside, Logger, LogLevel, level_text, CodedError, split_lines, get_prefix, log_with, log_info,
  log_warn, log_err, log_debug, log_lines, log_stack, print_error, throw_noexit, status, substatus,
}

pub data Call : Type 0 where
  info warn err debug tell_status tell_substatus : String → Call
  show_error throw_error : CodedError → Call

pub record Message : Type 0 where
  pub level : LogLevel
  pub text : String

abbrev at : LogLevel → String → Message
at level text = record { level = level; text = text }

abbrev stack_messages : Option String → List Message
stack_messages none = []
stack_messages (some t) =
    at LogLevel.err "Full error:" ∷ at LogLevel.err "" ∷ map (at LogLevel.err) (split_lines t)

abbrev error_messages : Bool → CodedError → List Message
error_messages b e =
    at LogLevel.err ""
    ∷ at LogLevel.err e.message
    ∷ at LogLevel.err ""
    ∷ (if b then stack_messages e.stack ++ at LogLevel.err "" ∷ [] else [])

-- The messages of a call, where debugging is on or off.
unfoldable pub messages : Bool → Call → List Message
messages b (info t) = at LogLevel.info t ∷ []
messages b (warn t) = at LogLevel.warn t ∷ []
messages b (err t) = at LogLevel.err t ∷ []
messages b (debug t) = if b then at LogLevel.debug t ∷ [] else []
messages b (tell_status t) = at LogLevel.info t ∷ []
messages b (tell_substatus t) = at LogLevel.info t ∷ []
messages b (show_error e) = error_messages b e
messages b (throw_error e) =
    at LogLevel.warn
      "logger.throw_noexit() is depreacted.  Please just throw your errors, and let 2Keys handle it, or use logger.printError()."
    ∷ error_messages b e

abbrev pub all_messages : Bool → List Call → List Message
all_messages b [] = []
all_messages b (c ∷ cs) = messages b c ++ all_messages b cs

abbrev colour_of : LogLevel → String
colour_of LogLevel.info = "green"
colour_of LogLevel.warn = "yellow"
colour_of LogLevel.err = "red"
colour_of LogLevel.debug = "cyan"

module _ {S : Type 0} (out : Outside S) (l : Logger S) where
  abbrev method_of : LogLevel → String → S → S
  method_of LogLevel.info = l.logging_methods.log
  method_of LogLevel.warn = l.logging_methods.warn
  method_of LogLevel.err = l.logging_methods.error
  method_of LogLevel.debug = l.logging_methods.log

  -- One message to the method of its level, with the time of its own.
  unfoldable pub deliver : Message → S → S
  deliver m s =
      method_of m.level
        (append (get_prefix out l (level_text m.level) (colour_of m.level) s) (append " " m.text)) s

  unfoldable pub deliver_all : List Message → S → S
  deliver_all [] s = s
  deliver_all (m ∷ ms) s = deliver_all ms (deliver m s)

  unfoldable pub call : Call → S → S
  call (info t) s = log_info out l t s
  call (warn t) s = log_warn out l t s
  call (err t) s = log_err out l t s
  call (debug t) s = log_debug out l t s
  call (tell_status t) s = status out l t s
  call (tell_substatus t) s = substatus out l t s
  call (show_error e) s = print_error out l e s
  call (throw_error e) s = throw_noexit out l e s

  unfoldable pub run : List Call → S → S
  run [] s = s
  run (c ∷ cs) s = run cs (call c s)

  -- A message of a logger that may be silent.
  unfoldable tell : Message → S → S
  tell m s = if l.is_silent then s else deliver m s

  unfoldable tell_all : List Message → S → S
  tell_all [] s = s
  tell_all (m ∷ ms) s = tell_all ms (tell m s)

  tell_all-append :
      (ms more : List Message) (s : S) → tell_all (ms ++ more) s ≡ tell_all more (tell_all ms s)
  unfolding tell_all
  tell_all-append [] more s = refl
  tell_all-append (m ∷ ms) more s = tell_all-append ms more (tell m s)

  tell_all-silent : l.is_silent ≡ true → (ms : List Message) (s : S) → tell_all ms s ≡ s
  unfolding tell_all tell
  tell_all-silent q [] s = refl
  tell_all-silent q (m ∷ ms) s = rw (q, tell_all-silent q ms s) refl

  tell_all-deliver :
      l.is_silent ≡ false → (ms : List Message) (s : S) → tell_all ms s ≡ deliver_all ms s
  unfolding tell_all tell deliver_all
  tell_all-deliver q [] s = refl
  tell_all-deliver q (m ∷ ms) s =
      ap (λ b. tell_all ms (if b then s else deliver m s)) q ∙ tell_all-deliver q ms _

  log_lines_lem :
      (xs : List String) (s : S) → log_lines out l xs s ≡ tell_all (map (at LogLevel.err) xs) s
  unfolding log_lines tell_all tell deliver log_with
  log_lines_lem [] s = refl
  log_lines_lem (x ∷ xs) s = log_lines_lem xs _

  log_stack_lem :
      (t : Option String) (s : S)
      → log_err out l "" (log_stack out l t s)
        ≡ tell_all (stack_messages t ++ at LogLevel.err "" ∷ []) s
  unfolding tell_all tell deliver log_with
  log_stack_lem none s = refl
  log_stack_lem (some t) s =
      ap (log_err out l "") (log_lines_lem (split_lines t) _)
      ∙ sym (tell_all-append (map (at LogLevel.err) (split_lines t)) (at LogLevel.err "" ∷ []) _)

  print_error_lem :
      (e : CodedError) (s : S) → print_error out l e s ≡ tell_all (error_messages l.is_debug e) s
  unfolding print_error tell_all tell deliver log_with
  print_error_lem e s = go l.is_debug
    where
      go :
          (b : Bool)
          → (let shown = log_err out l "" (log_err out l e.message (log_err out l "" s)) in
              if b then log_err out l "" (log_stack out l e.stack shown) else shown)
            ≡ tell_all (error_messages b e) s
      go true = log_stack_lem e.stack _
      go false = refl

  call_lem : (c : Call) (s : S) → call c s ≡ tell_all (messages l.is_debug c) s
  unfolding call messages log_debug tell_all tell deliver log_with
  call_lem (info t) s = refl
  call_lem (warn t) s = refl
  call_lem (err t) s = refl
  call_lem (debug t) s = go l.is_debug
    where
      go :
          (b : Bool)
          → (if b then tell (at LogLevel.debug t) s else s)
            ≡ tell_all (if b then at LogLevel.debug t ∷ [] else []) s
      go true = refl
      go false = refl
  call_lem (tell_status t) s = refl
  call_lem (tell_substatus t) s = refl
  call_lem (show_error e) s = print_error_lem e s
  call_lem (throw_error e) s = print_error_lem e _

  run-tell : (cs : List Call) (s : S) → run cs s ≡ tell_all (all_messages l.is_debug cs) s
  unfolding run tell_all
  run-tell [] s = refl
  run-tell (c ∷ cs) s =
      ap (run cs) (call_lem c s)
      ∙ run-tell cs _
      ∙ sym (tell_all-append (messages l.is_debug c) (all_messages l.is_debug cs) s)

  -- A sequence of calls of a logger changes nothing if it is silent. Otherwise it writes exactly the
  -- messages of the calls, in order, each by the method of its level under a time of its own: a debug
  -- message and an error's stack, line by line, only where debugging is on.
  pub run_lem :
      (cs : List Call) (s : S)
      → run cs s ≡ (if l.is_silent then s else deliver_all (all_messages l.is_debug cs) s)
  run_lem cs s = elim (Bool-cases l.is_silent) [
    | inl q ↦
        run-tell cs s
        ∙ tell_all-silent q (all_messages l.is_debug cs) s
        ∙ sym (ap (λ b. if b then s else deliver_all (all_messages l.is_debug cs) s) q)
    | inr q ↦
        run-tell cs s
        ∙ tell_all-deliver q (all_messages l.is_debug cs) s
        ∙ sym (ap (λ b. if b then s else deliver_all (all_messages l.is_debug cs) s) q)
  ]
