-- ===== src/Prelude/Effects.antt =====
-- Methods that change an object and may throw: what was changed before a throw stays changed.
use mathlib.Core.Path.{◌≡◌, refl}
use mathlib.Core.Logic.{◌⊎◌, inl, inr}
use mathlib.Core.Bool.{Bool, true, false}
use mathlib.Core.List.{List, [], ◌∷◌}
use native.Mathlib.Omega.{arith}
use keys.Prelude.Tests.{if◌then◌else◌}

pub data Result {ℓ κ} (E : Type ℓ) (A : Type κ) : Type (ℓ ⊔ κ) where
  ok : A → Result E A
  throws : E → Result E A

pub Result-cases {ℓ κ} :
    {E : Type ℓ} {A : Type κ} (r : Result E A) → ((a : A) × (r ≡ ok a)) ⊎ ((e : E) × (r ≡ throws e))
Result-cases (ok a) = inl (a, refl)
Result-cases (throws e) = inr (e, refl)

-- What a write to a file does: all of it; nothing; or it breaks off, with what the file then gives.
pub data Write {ℓ κ} (E : Type ℓ) (A : Type κ) : Type (ℓ ⊔ κ) where
  whole : Write E A
  refused : E → Write E A
  torn : E → A → Write E A

pub Write-cases {ℓ κ} :
    {E : Type ℓ} {A : Type κ} (w : Write E A)
    → (w ≡ whole) ⊎ ((e : E) × (w ≡ refused e)) ⊎ ((e : E) × (a : A) × (w ≡ torn e a))
Write-cases whole = inl refl
Write-cases (refused e) = inr (inl (e, refl))
Write-cases (torn e a) = inr (inr (e, a, refl))

-- A step that the code leaves out when the outcome before it threw.
abbrev pub and_then {ℓ κ ν} :
    {E : Type ℓ} {A : Type κ} {B : Type ν} → Result E A → (A → Result E B) → Result E B
and_then (ok a) f = f a
and_then (throws e) f = throws e

-- `xs.map(f)` where `f` may throw: the first throw ends the loop.
abbrev pub traverse {ℓ κ ν} :
    {E : Type ℓ} {A : Type κ} {B : Type ν} → (A → Result E B) → List A → Result E (List B)
traverse f [] = ok []
traverse f (x ∷ xs) =
    let rest = traverse f xs in and_then (f x) (λ y. and_then rest (λ ys. ok (y ∷ ys)))

abbrev pub Exec : Type 0 → Type 0 → Type 0 → Type 0
Exec E S A = S → Result E A × S

module _ {E S A : Type 0} where
  pub pure : A → Exec E S A
  pure a s = (ok a, s)

  pub pure_lem : (a : A) (s : S) → pure a s ≡ (ok a, s)
  unfolding pure
  pure_lem a s = refl

  pub throw : E → Exec E S A
  throw e s = (throws e, s)

  -- A value, or an error, that leaves the object alone; what is read of the object.
  pub lift : Result E A → Exec E S A
  lift r s = (r, s)

  pub reads : (S → Result E A) → Exec E S A
  reads f s = (f s, s)

  abbrev handle : (E → Exec E S A) → Result E A × S → Result E A × S
  handle f (ok a, s) = (ok a, s)
  handle f (throws e, s) = f e s

  -- The handler of a `try` starts where the body stopped.
  pub try_catch : Exec E S A → (E → Exec E S A) → Exec E S A
  try_catch m f s = handle f (m s)

module _ {E S : Type 0} where
  pub modify : (S → S) → Exec E S Unit
  modify f s = (ok tt, f s)

module _ {E S A B : Type 0} where
  abbrev resume : (A → Exec E S B) → Result E A × S → Result E B × S
  resume f (ok a, s) = f a s
  resume f (throws e, s) = (throws e, s)

  infixl 5 ◌>>=◌ ◌>>◌
  -- To open this opens the other ways to build a method too.
  unfoldable pub ◌>>=◌ : Exec E S A → (A → Exec E S B) → Exec E S B
  unfolding pure throw lift reads try_catch modify
  ◌>>=◌ m f s = resume f (m s)

  abbrev pub ◌>>◌ : Exec E S A → Exec E S B → Exec E S B
  m >> n = m >>= λ _. n

module _ {E S A B : Type 0} where
  -- A read that succeeds is a plain value for the rest.
  pub reads-bind :
      (f : S → Result E A) (g : A → Exec E S B) (s : S) {a : A}
      → f s ≡ ok a
      → (reads f >>= g) s ≡ g a s
  unfolding ◌>>=◌
  reads-bind f g s e = rw e

module _ {E S A : Type 0} (m : Exec E S A) (f : E → Exec E S A) (s : S) where
  pub try_catch-ok : {a : A} → (m s).0 ≡ ok a → try_catch m f s ≡ m s
  unfolding try_catch
  try_catch-ok h = rw h

  pub try_catch-throws : {e : E} → (m s).0 ≡ throws e → try_catch m f s ≡ f e (m s).1
  unfolding try_catch
  try_catch-throws h = rw h

module _ {E S A B : Type 0} (m : Exec E S A) (f : A → Exec E S B) (s : S) where
  pub bind-after : {a : A} → (m s).0 ≡ ok a → (m >>= f) s ≡ f a (m s).1
  unfolding ◌>>=◌
  bind-after h = rw h

  pub bind-throws : {e : E} → (m s).0 ≡ throws e → (m >>= f) s ≡ (throws e, (m s).1)
  unfolding ◌>>=◌
  bind-throws h = rw h

module _ {E S A B : Type 0} (f : A → Exec E S B) {b : B} where
  resume-ok :
      (r : Result E A × S) → (resume f r).0 ≡ ok b → (a : A) × (r.0 ≡ ok a) × (resume f r ≡ f a r.1)
  resume-ok (ok a, s) h = (a, refl, refl)
  resume-ok (throws e, s) h = ground (arith)

  -- Where the whole returns, its first part did.
  pub bind-ok :
      (m : Exec E S A) (s : S)
      → ((m >>= f) s).0 ≡ ok b
      → (a : A) × ((m s).0 ≡ ok a) × ((m >>= f) s ≡ f a (m s).1)
  unfolding ◌>>=◌
  bind-ok m s h = resume-ok (m s) h

module _ {E S A B : Type 0} (f : A → Result E B) where
  resume-lift : (r : Result E A × S) → resume (λ a. lift (f a)) r ≡ (and_then r.0 f, r.1)
  unfolding lift
  resume-lift (ok a, s) = refl
  resume-lift (throws e, s) = refl

  -- What comes after a method and leaves the object alone.
  pub bind-lift :
      (m : Exec E S A) (s : S) → (m >>= λ a. lift (f a)) s ≡ (and_then (m s).0 f, (m s).1)
  unfolding ◌>>=◌
  bind-lift m s = resume-lift (m s)

-- `P` holds of the object after the method, whether it returns or throws.
pub record Preserves {E S A : Type 0} (P : S → Type 0) (m : Exec E S A) : Type 0 where
  pub after : (s : S) → P s → P (m s).1

module _ {E S A : Type 0} {P : S → Type 0} where
  pub Preserves-pure : (a : A) → Preserves P (pure {E = E} a)
  unfolding pure
  Preserves-pure a = record { after = λ s h. h }

  pub Preserves-throw : (e : E) → Preserves P (throw {A = A} e)
  unfolding throw
  Preserves-throw e = record { after = λ s h. h }

  pub Preserves-lift : (r : Result E A) → Preserves P (lift r)
  unfolding lift
  Preserves-lift r = record { after = λ s h. h }

  pub Preserves-reads : (f : S → Result E A) → Preserves P (reads f)
  unfolding reads
  Preserves-reads f = record { after = λ s h. h }

  handle-after :
      (f : E → Exec E S A)
      → ((e : E) → Preserves P (f e))
      → (r : Result E A × S) → P r.1
      → P (handle f r).1
  handle-after f kf (ok a, s) h = h
  handle-after f kf (throws e, s) h = (kf e).after s h

  pub Preserves-try_catch :
      (m : Exec E S A) (f : E → Exec E S A)
      → Preserves P m
      → ((e : E) → Preserves P (f e))
      → Preserves P (try_catch m f)
  unfolding try_catch
  Preserves-try_catch m f km kf = record { after = λ s h. handle-after f kf (m s) (km.after s h) }

  pub Preserves-if :
      (b : Bool) (m n : Exec E S A)
      → Preserves P m
      → Preserves P n
      → Preserves P (if b then m else n)
  Preserves-if true m n km kn = km
  Preserves-if false m n km kn = kn

module _ {E S A B : Type 0} {P : S → Type 0} where
  resume-after :
      (f : A → Exec E S B)
      → ((a : A) → Preserves P (f a))
      → (r : Result E A × S) → P r.1
      → P (resume f r).1
  resume-after f kf (ok a, s) h = (kf a).after s h
  resume-after f kf (throws e, s) h = h

  pub Preserves-bind :
      (m : Exec E S A) (f : A → Exec E S B)
      → Preserves P m
      → ((a : A) → Preserves P (f a))
      → Preserves P (m >>= f)
  unfolding ◌>>=◌
  Preserves-bind m f km kf = record { after = λ s h. resume-after f kf (m s) (km.after s h) }

pub ruleset preserves_rules = (
  Preserves-pure, Preserves-throw, Preserves-lift, Preserves-reads, Preserves-try_catch,
  Preserves-if, Preserves-bind,
)
