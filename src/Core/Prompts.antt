-- ===== src/Core/Prompts.antt =====
-- packages/@twokeys/core/src/prompts.ts: Prompts.basePrompt and its wrappers. The lines that the
-- user enters are a list; where it ends the prompt still waits.
mod Laws
mod Tests
use Prim.Native.Char.{Char}
use Prim.Native.String.{◌++◌ as append}
use keys.Prelude.{
  ℕ, zero, suc, Bool, true, false, Option, none, some, List, [], ◌∷◌, String, ◌==◌, map, snoc, not,
  ◌&&◌, Result, ok, throws, if◌then◌else◌,
}
use keys.Core.TitleCase.{TypeError, type_error, title_case}

-- The logger, as far as prompts change it: its flag, and the texts that it has printed.
pub record Logger : Type 0 where
  pub is_silent : Bool
  pub printed : List String

pub record PromptConfig : Type 0 where
  pub buttons : Option (List String)
  pub default_button : Option ℕ

pub data Answer : Type 0 where
  response : ℕ → Answer
  waiting : Answer
  fails : TypeError → Answer

unfoldable pub log : String → Logger → Logger
log t l = if l.is_silent then l else record l { printed = snoc l.printed t }

-- `[].indexOf(x)`, where `none` is -1.
unfoldable pub index_of : String → List String → Option ℕ
index_of x [] = none
index_of x (y ∷ ys) =
    let rest = index_of x ys in
    if y == x then some 0 else elim rest [ none ↦ none | some i ↦ some (suc i) ]

abbrev pub yes_no : List String
yes_no = "y" ∷ "n" ∷ []

abbrev pub given_buttons : PromptConfig → List String
given_buttons config = elim config.buttons [ none ↦ yes_no | some bs ↦ bs ]

abbrev pub default_or_first : PromptConfig → ℕ
default_or_first config = elim config.default_button [ none ↦ 0 | some i ↦ i ]

-- `join("/")`
unfoldable pub join_options : List String → String
join_options [] = ""
join_options (b ∷ []) = b
join_options (b ∷ c ∷ bs) = append b (append "/" (join_options (c ∷ bs)))

-- "Reset back to true", where the logger was silent.
abbrev pub restore : Bool → Logger → Logger
restore was l = if was then record l { is_silent = true } else l

-- An element in a template text: `undefined` where there is none.
abbrev pub button_text : ℕ → List String → String
button_text i [] = "undefined"
button_text zero (b ∷ bs) = b
button_text (suc i) (b ∷ bs) = button_text i bs

-- After any line.
abbrev pub confirmed : List String → Answer
confirmed [] = waiting
confirmed (line ∷ lines) = response 0

module _ (lower : String → String) (upper : Char → String) where
  -- The option at the default's place in title case; where there is none, `titleCase(undefined)`.
  unfoldable pub title_at : ℕ → List String → Result TypeError (List String)
  title_at i [] = throws type_error
  title_at zero (b ∷ bs) = elim (title_case lower upper b) [
    | ok t ↦ ok (t ∷ bs)
    | throws e ↦ throws e
  ]
  title_at (suc i) (b ∷ bs) = elim (title_at i bs) [ ok ts ↦ ok (b ∷ ts) | throws e ↦ throws e ]

  abbrev pub title_default : Option ℕ → List String → Result TypeError (List String)
  title_default none bs = ok bs
  title_default (some i) bs = title_at i bs

  unfoldable pub options_line : String → PromptConfig → Result TypeError String
  options_line message config =
      elim (title_default config.default_button (map lower (given_buttons config))) [
        | throws e ↦ throws e
        | ok options ↦ ok (append message (append " [" (append (join_options options) "]")))
      ]

  -- The button that a line names, or the default one, for the empty line.
  abbrev pub matched : PromptConfig → String → Option ℕ
  matched config line = index_of (lower line) (map lower (given_buttons config))

  abbrev pub by_default : PromptConfig → String → Option ℕ
  by_default config line = if line == "" then config.default_button else none

  -- What is printed before the line is read: the flag is off from here on.
  abbrev pub announce : String → Logger → Logger
  announce text l = log text (log "" (record l { is_silent = false }))

  module _ (non_interactive : Bool) (message : String) (config : PromptConfig) where
    -- `${config.buttons[config.defaultButton ?? 0]}`
    abbrev pub warn_default : Logger → Logger
    warn_default l =
        log
          "This may lead to undetermined behaviour when no default (Titlecase) option is specified by the code!"
          (log
            (append "Returning value of " (
              append (button_text (default_or_first config) (given_buttons config))
                " as TWOKEYS_NONINTERACTIVE is set."))
            l)

    -- After the options have been printed, with the lines still to come; `again` is the prompt anew.
    abbrev pub read_line : Bool → Logger → String → (Logger → Answer × Logger) → Answer × Logger
    read_line was l line again = elim (matched config line) [
      | some i ↦ (response i, restore was l)
      | none ↦ elim (by_default config line) [
        | some i ↦ (response i, l)
        | none ↦ again (log "Invalid response." l)
      ]
    ]

    abbrev pub ask : Result TypeError String → Logger → (Logger → Answer × Logger) → Answer × Logger
    ask (throws e) l next = (fails e, log "" (record l { is_silent = false }))
    ask (ok text) l next =
        if non_interactive
        then (
          response (default_or_first config),
          restore l.is_silent (warn_default (announce text l)),
        )
        else next (announce text l)

    unfoldable pub base_prompt : List String → Logger → Answer × Logger
    base_prompt [] l = ask (options_line message config) l (λ shown. (waiting, shown))
    base_prompt (line ∷ lines) l =
        ask (options_line message config) l
          λ shown. read_line l.is_silent shown line (base_prompt lines)

  -- `info`: waits for one line, unless it is skipped.
  unfoldable pub info : Bool → String → List String → Logger → Answer × Logger
  info non_interactive message lines l =
      if not l.is_silent && not non_interactive
      then (confirmed lines, log "Press enter to continue." (log message (log "" l)))
      else (response 0, l)
