-- ===== src/Registry/Client.antt =====
-- Calls of the methods of packages/@twokeys/addons/src/registry.ts one after the other, and when a
-- registry stands for a list of names.
use keys.Prelude.{
  ℕ, ◌<◌, true, false, Option, none, some, List, [], ◌∷◌, String, ◌≡◌, includes, map, Result, ok,
  throws,
}
use keys.Registry.{
  Directory, missing, Package, PackageInDb, PackageJson, Registry, Validated, valid, invalid,
  Thrown,
}
use keys.Registry.Document.{convert_package_for_db}
use keys.Registry.Documents.{is_readable}
use keys.Registry.Uniqueness.{IsConsistent}
use keys.Registry.Adding.{IsInstalled}
use keys.Registry.Methods.{
  AddPackageOptions, no_options, get_packages_from_db, remove_package_from_db, add_package_to_db,
  reindex,
}
use keys.Registry.Specification.{
  Call, adds, updates, replaces, removes, gets, reindexes, Reply, stored, finished, listed, forget,
}

abbrev pub force : AddPackageOptions
force = record { force = true; update = false }

abbrev pub force_update : AddPackageOptions
force_update = record { force = true; update = true }

-- A reply without the ids of packages.
abbrev pub forget_ids :
    Result Thrown (Validated (List Package)) → Result Thrown (Validated (List Package))
forget_ids (ok (valid ps)) = ok (valid (map forget ps))
forget_ids (ok (invalid m)) = ok (invalid m)
forget_ids (throws e) = throws e

module _ (uuid : ℕ → String) where
  abbrev pub stores : Result Thrown (Validated Unit) × Registry → Reply × Registry
  stores r = (stored r.0, r.1)

  abbrev pub finishes : Result Thrown (Unit {0}) × Registry → Reply × Registry
  finishes r = (finished r.0, r.1)

  unfoldable pub perform : Call → Registry → Reply × Registry
  perform (adds n) s = stores (add_package_to_db uuid n no_options s)
  perform (updates n) s = stores (add_package_to_db uuid n force_update s)
  perform (replaces n) s = stores (add_package_to_db uuid n force s)
  perform (removes n) s = finishes (remove_package_from_db n s)
  perform (gets n) s = let r = get_packages_from_db n s in (listed (forget_ids r.0), r.1)
  perform reindexes s = finishes (reindex uuid s)

  unfoldable pub run : List Call → Registry → List Reply × Registry
  run [] s = ([], s)
  run (c ∷ cs) s = let one = perform c s in let rest = run cs one.1 in (one.0 ∷ rest.0, rest.1)

  module _ (catalog : String → Option Package) (dependencies : List String) (dir : Directory) where
    -- What the folder has under a name, for the package that the catalog gives.
    abbrev pub Holds : String → Option Package → Type 0
    Holds n none = dir.node_modules n ≡ missing
    Holds n (some doc) =
        (json : PackageJson) × IsInstalled n dir json doc
        × (doc.name ≡ n)
        × (is_readable doc ≡ true)

    -- Every folder of node_modules that there is holds an add-on whose package.json is accepted,
    -- has the name of the folder, and can be read back once it is stored.
    abbrev pub IsCatalog : Type 0
    IsCatalog = (dir.dependencies ≡ ok dependencies) × ((n : String) → Holds n (catalog n))

    -- The row of a name: its id has been made already.
    abbrev pub IsRowOf : ℕ → String → PackageInDb → Type 0
    IsRowOf made n row =
        (k : ℕ) × (doc : Package) × (k < made)
        × (catalog n ≡ some doc)
        × (row ≡ convert_package_for_db (uuid k) doc)

    abbrev pub AreRowsOf : ℕ → List String → List PackageInDb → Type 0
    AreRowsOf made [] [] = Unit
    AreRowsOf made [] (r ∷ rs) = ⊥
    AreRowsOf made (n ∷ ns) [] = ⊥
    AreRowsOf made (n ∷ ns) (r ∷ rs) =
        IsRowOf made n r × (includes ns n ≡ false) × AreRowsOf made ns rs

    pub record Represents (ns : List String) (s : Registry) : Type 0 where
      pub in_directory : s.directory ≡ dir
      pub is_consistent : IsConsistent s
      pub rows_of : AreRowsOf s.generated ns s.rows
