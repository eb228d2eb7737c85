-- ===== src/Prelude/Lists.antt =====
-- Lists with Boolean tests, and objects with text keys as association lists.
use Prim.Native.Nat.{ℕ, suc}
use Prim.Native.String.{String}
use mathlib.Core.Path.{◌≡◌, refl}
use mathlib.Core.Bool.{Bool, true, false, ◌&&◌, ◌||◌, not}
use mathlib.Core.Option.{Option, none, some}
use mathlib.Core.List.{List, [], ◌∷◌, ◌++◌}
use native.Mathlib.Omega.{arith}
use text.Mathlib.Text.{◌==◌}
use keys.Prelude.Tests.{if◌then◌else◌}

module _ {ℓ} {A : Type ℓ} where
  abbrev pub length : List A → ℕ
  length [] = 0
  length (x ∷ xs) = suc (length xs)

  abbrev pub any : (A → Bool) → List A → Bool
  any p [] = false
  any p (x ∷ xs) = p x || any p xs

  abbrev pub all : (A → Bool) → List A → Bool
  all p [] = true
  all p (x ∷ xs) = p x && all p xs

  -- `Array.prototype.filter` and a WHERE clause.
  abbrev pub keep : (A → Bool) → List A → List A
  keep p [] = []
  keep p (x ∷ xs) = let rest = keep p xs in if p x then x ∷ rest else rest

  -- An array's last place, `xs ++ x ∷ []`.
  abbrev pub snoc : List A → A → List A
  snoc xs x = xs ++ x ∷ []

  pub any-append : (p : A → Bool) (xs ys : List A) → any p (xs ++ ys) ≡ (any p xs || any p ys)
  any-append p [] ys = refl
  any-append p (x ∷ xs) ys = ground (arith, any-append p xs ys)

  pub any-snoc : (p : A → Bool) (xs : List A) {x : A} → p x ≡ true → any p (snoc xs x) ≡ true
  any-snoc p [] h = rw h
  any-snoc p (y ∷ ys) h = ground (arith, any-snoc p ys h)

  pub keep-append : (p : A → Bool) (xs ys : List A) → keep p (xs ++ ys) ≡ keep p xs ++ keep p ys
  keep-append p [] ys = refl
  keep-append p (x ∷ xs) ys = ground (arith, keep-append p xs ys)

  -- Nothing is kept where the test fails everywhere.
  pub keep-eq-nil : (p : A → Bool) (xs : List A) → any p xs ≡ false → keep p xs ≡ []
  keep-eq-nil p [] h = refl
  keep-eq-nil p (x ∷ xs) h = ground (arith, keep-eq-nil p xs)

  -- A filter by another test finds nothing of what was dropped.
  pub any-keep-not : (p : A → Bool) (xs : List A) → any p (keep (λ x. not (p x)) xs) ≡ false
  any-keep-not p [] = refl
  any-keep-not p (x ∷ xs) = ground (arith, any-keep-not p xs)

  pub any-keep-false : (p q : A → Bool) (xs : List A) → any p xs ≡ false → any p (keep q xs) ≡ false
  any-keep-false p q [] h = refl
  any-keep-false p q (x ∷ xs) h = ground (arith, any-keep-false p q xs)

module _ {ℓ κ} {A : Type ℓ} (P : A → Type κ) where
  abbrev pub All : List A → Type κ
  All [] = Unit
  All (x ∷ xs) = P x × All xs

-- `xs.includes(x)`, and the property of an object.
abbrev pub includes : List String → String → Bool
includes xs x = any (λ y. y == x) xs

module _ {ℓ} {V : Type ℓ} where
  unfoldable pub property : String → List (String × V) → Option V
  property k [] = none
  property k ((j, v) ∷ o) = if j == k then some v else property k o
