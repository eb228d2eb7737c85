-- ===== src/Registry/Refinement/Tests.antt =====
-- Calls of the methods of packages/@twokeys/addons/src/registry.ts on a sample folder.
use keys.Prelude.{
  Option, none, some, List, [], ◌∷◌, String, ◌≡◌, refl, sym, ◌==◌, eq_iff, subst, ap, ok,
  Bool-cases, inl, inr, if◌then◌else◌,
}
use keys.Registry.{Directory, found, missing, Package, Registry}
use keys.Registry.Table.{distinct}
use keys.Registry.Tests.{
  uuid, uuid_injective, ahk_json, ahk_package, accepts_ahk, converts_ahk, reads_ahk,
}
use keys.Registry.Specification.{Call, adds, updates, replaces, removes, gets, reindexes, spec_run}
use keys.Registry.Client.{Holds, IsCatalog, Represents, run}
use keys.Registry.Refinement.Calls.{run-Refines}

abbrev shelf : String → Option Package
shelf n = if n == "ahk" then some ahk_package else none

abbrev shelf_directory : Directory
shelf_directory = record {
  node_modules = λ n. if n == "ahk" then found ahk_json else missing;
  dependencies = ok ("ahk" ∷ []);
}

ahk-Holds : Holds uuid shelf ("ahk" ∷ []) shelf_directory "ahk" (shelf "ahk")
ahk-Holds = (ahk_json, (refl, accepts_ahk, converts_ahk), refl, reads_ahk)

shelf-Holds : (n : String) → Holds uuid shelf ("ahk" ∷ []) shelf_directory n (shelf n)
shelf-Holds n = elim (Bool-cases (n == "ahk")) [
  | inl e ↦
      subst (λ m. Holds uuid shelf ("ahk" ∷ []) shelf_directory m (shelf m))
        (sym ((eq_iff n "ahk").0 e)) ahk-Holds
  | inr e ↦ rw e (ap (λ b. if b then found ahk_json else missing) e)
]

shelf-IsCatalog : IsCatalog uuid shelf ("ahk" ∷ []) shelf_directory
shelf-IsCatalog = (refl, shelf-Holds)

abbrev fresh_registry : Registry
fresh_registry = record { rows = []; directory = shelf_directory; generated = 0 }

fresh-Represents : Represents uuid shelf ("ahk" ∷ []) shelf_directory [] fresh_registry
unfolding distinct
fresh-Represents = record { in_directory = refl; is_consistent = refl; rows_of = tt }

abbrev some_calls : List Call
some_calls =
    gets "ahk"
    ∷ updates "ahk"
    ∷ adds "ahk"
    ∷ gets "ahk"
    ∷ replaces "ahk"
    ∷ adds "none"
    ∷ removes "ahk"
    ∷ reindexes
    ∷ gets "ahk"
    ∷ []

run-Refines_example :
    ((run uuid some_calls fresh_registry).0 ≡ (spec_run shelf ("ahk" ∷ []) some_calls []).0)
    × Represents uuid shelf
        ("ahk" ∷ [])
        shelf_directory
        (spec_run shelf ("ahk" ∷ []) some_calls []).1
        (run uuid some_calls fresh_registry).1
run-Refines_example =
    run-Refines uuid uuid_injective shelf ("ahk" ∷ []) shelf_directory shelf-IsCatalog some_calls
      fresh_registry [] fresh-Represents
