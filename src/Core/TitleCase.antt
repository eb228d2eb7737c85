-- ===== src/Core/TitleCase.antt =====
-- packages/@twokeys/core/src/titlecase.ts. `lower` and `upper` are JavaScript's `toLowerCase` of a
-- text and `toUpperCase` of a character.
pub mod Laws
mod Tests
use Prim.Native.Char.{Char, code}
use Prim.Native.Nat.{compare, Ordering}
use Prim.Native.String.{◌++◌ as append}
use keys.Prelude.{
  ℕ, Bool, true, false, List, [], ◌∷◌, String, Result, ok, throws, and_then, traverse,
  if◌then◌else◌,
}

-- `undefined.toUpperCase()`, or a text method of what is no text.
pub data TypeError : Type 0 where
  type_error : TypeError

abbrev pub is_space : Char → Bool
is_space c = elim (compare (code c) 32) [ Ordering.eq ↦ true | _ ↦ false ]

-- A character put in front of the first word of a split text.
abbrev pub onto_first : Char → List String → List String
onto_first c [] = String.◌∷◌ c String.[] ∷ []
onto_first c (w ∷ ws) = String.◌∷◌ c w ∷ ws

-- `split(" ")`: one word more than there are spaces.
unfoldable pub split_words : String → List String
split_words String.[] = "" ∷ []
split_words (String.◌∷◌ c s) =
    let rest = split_words s in if is_space c then "" ∷ rest else onto_first c rest

-- `join(" ")`
unfoldable pub join_words : List String → String
join_words [] = ""
join_words (w ∷ []) = w
join_words (w ∷ v ∷ ws) = append w (String.◌∷◌ " " (join_words (v ∷ ws)))

module _ (lower : String → String) (upper : Char → String) where
  -- `word.replace(word[0], word[0].toUpperCase())`; the first character of "" is `undefined`.
  unfoldable pub capitalise : String → Result TypeError String
  capitalise String.[] = throws type_error
  capitalise (String.◌∷◌ c s) = ok (append (upper c) s)

  unfoldable pub title_case : String → Result TypeError String
  title_case str =
      and_then (traverse capitalise (split_words (lower str))) λ words. ok (join_words words)
