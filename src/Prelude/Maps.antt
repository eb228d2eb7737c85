-- ===== src/Prelude/Maps.antt =====
-- JavaScript's `Map` with text keys, as an association list without double keys.
use Prim.Native.String.{String}
use mathlib.Core.Path.{◌≡◌, refl}
use mathlib.Core.Option.{none, some}
use mathlib.Core.List.{List, [], ◌∷◌}
use native.Mathlib.Omega.{arith}
use text.Mathlib.Text.{◌==◌}
use text.Mathlib.TextEquality.{eq_iff}
use keys.Prelude.Tests.{if◌then◌else◌}
use keys.Prelude.Lists.{property}

module _ {ℓ} {V : Type ℓ} where
  -- `map.set(k, v)`: a new key comes last.
  unfoldable pub put : String → V → List (String × V) → List (String × V)
  put k v [] = (k, v) ∷ []
  put k v ((j, w) ∷ m) = if j == k then (k, v) ∷ m else (j, w) ∷ put k v m

  -- `map.delete(k)`
  unfoldable pub without : String → List (String × V) → List (String × V)
  without k [] = []
  without k ((j, w) ∷ m) = let rest = without k m in if j == k then rest else (j, w) ∷ rest

  pub property-put :
      (k j : String) (v : V) (m : List (String × V))
      → property j (put k v m) ≡ (if k == j then some v else property j m)
  unfolding property put
  property-put k j v [] = refl
  property-put k j v ((i, w) ∷ m) =
      ground (arith, eq_iff k j, eq_iff i k, eq_iff i j, property-put k j v m)

  pub property-without :
      (k j : String) (m : List (String × V))
      → property j (without k m) ≡ (if k == j then none else property j m)
  unfolding property without
  property-without k j [] = ground arith
  property-without k j ((i, w) ∷ m) =
      ground (arith, eq_iff k j, eq_iff i k, eq_iff i j, property-without k j m)
