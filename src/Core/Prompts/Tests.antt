-- ===== src/Core/Prompts/Tests.antt =====
-- Prompts of packages/@twokeys/core/src/prompts.ts on sample lines.
use Prim.Native.Char.{Char}
use keys.Prelude.{true, false, none, some, [], ◌∷◌, String, ◌≡◌, refl, ◌<◌, length, ok}
use keys.Core.TitleCase.{title_case, split_words, join_words, capitalise}
use keys.Core.Prompts.{
  Logger, PromptConfig, response, given_buttons, options_line, base_prompt, title_at, join_options,
  index_of,
}
use keys.Core.Prompts.Laws.{Answers, base_prompt-Answers, response-lt_length}

abbrev same : String → String
same s = s

abbrev single : Char → String
single c = String.◌∷◌ c String.[]

-- Yes or no, where no is the default.
abbrev careful : PromptConfig
careful = record { buttons = none; default_button = some 1 }

abbrev quiet : Logger
quiet = record { is_silent = true; printed = [] }

printable : options_line same single "Proceed?" careful ≡ ok "Proceed? [y/n]"
unfolding options_line title_at title_case split_words join_words capitalise join_options
printable = refl

base_prompt-Answers_example :
    Answers same single "Proceed?" careful
      ("maybe" ∷ "" ∷ [])
      (base_prompt same single false "Proceed?" careful ("maybe" ∷ "" ∷ []) quiet).0
base_prompt-Answers_example =
    base_prompt-Answers same single "Proceed?" careful "Proceed? [y/n]" printable
      ("maybe" ∷ "" ∷ []) quiet

answered : (base_prompt same single false "Proceed?" careful ("y" ∷ []) quiet).0 ≡ response 0
unfolding base_prompt options_line title_at title_case split_words join_words capitalise
    join_options index_of
answered = refl

response-lt_length_example : 0 < length (given_buttons careful)
response-lt_length_example =
    response-lt_length same single "Proceed?" careful ("y" ∷ []) quiet 0 answered
