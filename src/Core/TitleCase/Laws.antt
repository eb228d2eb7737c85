-- ===== src/Core/TitleCase/Laws.antt =====
-- When titleCase of packages/@twokeys/core/src/titlecase.ts throws.
use Prim.Native.Char.{Char}
use keys.Prelude.{
  Bool, true, false, List, [], ◌∷◌, String, ◌≡◌, ◌↔◌, refl, any, throws, traverse, arith,
}
use keys.Core.TitleCase.{type_error, split_words, capitalise, title_case}

abbrev pub is_empty : String → Bool
is_empty String.[] = true
is_empty (String.◌∷◌ c s) = false

module _ (lower : String → String) (upper : Char → String) where
  capitalise_fails :
      (w : String) → (capitalise lower upper w ≡ throws type_error) ↔ (is_empty w ≡ true)
  unfolding capitalise
  capitalise_fails String.[] = (λ h. refl, λ h. refl)
  capitalise_fails (String.◌∷◌ c s) = (λ h. cc, λ h. cc)

  traverse_fails :
      (ws : List String)
      → (traverse (capitalise lower upper) ws ≡ throws type_error) ↔ (any is_empty ws ≡ true)
  traverse_fails [] = (λ h. cc, λ h. cc)
  traverse_fails (w ∷ ws) = ground (arith, capitalise_fails w, traverse_fails ws)

  -- titleCase throws a TypeError exactly if the text has an empty word: if it is empty, begins or
  -- ends with a space, or has two spaces in a row.
  pub title_case_throws_iff :
      (str : String)
      → (title_case lower upper str ≡ throws type_error)
        ↔ (any is_empty (split_words (lower str)) ≡ true)
  unfolding title_case
  title_case_throws_iff str = ground (arith, traverse_fails (split_words (lower str)))
