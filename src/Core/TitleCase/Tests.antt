-- ===== src/Core/TitleCase/Tests.antt =====
-- titleCase of packages/@twokeys/core/src/titlecase.ts on sample texts.
use Prim.Native.Char.{Char}
use keys.Prelude.{String, ◌≡◌, refl, ok}
use keys.Core.TitleCase.{split_words, join_words, capitalise, title_case}

-- Case mappings that change nothing.
abbrev pub same : String → String
same s = s

abbrev pub single : Char → String
single c = String.◌∷◌ c String.[]

two_words : title_case same single "no thanks" ≡ ok "no thanks"
unfolding title_case split_words join_words capitalise
two_words = refl
