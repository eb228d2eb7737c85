-- ===== src/Registry/Specification.antt =====
-- What the registry of packages/@twokeys/addons/src/registry.ts promises: it keeps the list of the
-- names that were added, and what it tells of a name is what is installed under it. `catalog n` is
-- the package that is installed as `n`; ids and the text columns of the table are left out.
use keys.Prelude.{
  not, Option, none, some, List, [], ◌∷◌, String, ◌==◌, keep, snoc, includes, Result, ok, throws,
  if◌then◌else◌,
}
use keys.Registry.{Package, Validated, valid, invalid, Thrown, not_installed, already_in_registry}

pub data Call : Type 0 where
  adds updates replaces removes gets : String → Call
  reindexes : Call

pub data Reply : Type 0 where
  stored : Result Thrown (Validated Unit) → Reply
  finished : Result Thrown (Unit {0}) → Reply
  listed : Result Thrown (Validated (List Package)) → Reply

-- A package without its id.
abbrev pub forget : Package → Package
forget p = record p { id = none }

module _ (catalog : String → Option Package) (dependencies : List String) where
  abbrev pub spec_install :
      Option Package → String → List String → Result Thrown (Validated Unit) × List String
  spec_install none n ns = (throws (not_installed n), ns)
  spec_install (some p) n ns = (ok (valid tt), snoc ns n)

  abbrev pub spec_add : String → List String → Result Thrown (Validated Unit) × List String
  spec_add n ns =
      if includes ns n
      then (ok (invalid already_in_registry), ns)
      else spec_install (catalog n) n ns

  abbrev pub drop : String → List String → List String
  drop n = keep (λ m. not (m == n))

  -- `force` without `update` puts the name last.
  abbrev pub spec_replace : String → List String → Result Thrown (Validated Unit) × List String
  spec_replace n ns = spec_install (catalog n) n (drop n ns)

  -- `force` and `update`: no name is added, not even one that was not there.
  abbrev pub spec_update : Option Package → String → Result Thrown (Validated Unit)
  spec_update none n = throws (not_installed n)
  spec_update (some p) n = ok (valid tt)

  abbrev pub spec_found : Option Package → List Package
  spec_found none = []
  spec_found (some p) = forget p ∷ []

  abbrev pub spec_get : String → List String → List Package
  spec_get n ns = if includes ns n then spec_found (catalog n) else []

  abbrev pub after_add :
      Result Thrown (Validated Unit)
      → List String
      → Result Thrown (Unit {0}) × List String
      → Result Thrown (Unit {0}) × List String
  after_add (ok v) ns rest = rest
  after_add (throws e) ns rest = (throws e, ns)

  unfoldable pub spec_add_all : List String → List String → Result Thrown (Unit {0}) × List String
  spec_add_all [] ns = (ok tt, ns)
  spec_add_all (d ∷ ds) ns =
      let one = spec_add d ns in after_add one.0 one.1 (spec_add_all ds one.1)

  unfoldable pub spec_step : Call → List String → Reply × List String
  spec_step (adds n) ns = (stored (spec_add n ns).0, (spec_add n ns).1)
  spec_step (updates n) ns = (stored (spec_update (catalog n) n), ns)
  spec_step (replaces n) ns = (stored (spec_replace n ns).0, (spec_replace n ns).1)
  spec_step (removes n) ns = (finished (ok tt), drop n ns)
  spec_step (gets n) ns = (listed (ok (valid (spec_get n ns))), ns)
  spec_step reindexes ns =
      (finished (spec_add_all dependencies []).0, (spec_add_all dependencies []).1)

  unfoldable pub spec_run : List Call → List String → List Reply × List String
  spec_run [] ns = ([], ns)
  spec_run (c ∷ cs) ns =
      let one = spec_step c ns in let rest = spec_run cs one.1 in (one.0 ∷ rest.0, rest.1)
