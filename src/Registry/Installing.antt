-- ===== src/Registry/Installing.antt =====
-- packages/@twokeys/addons/src/registry.ts: install, uninstall and update, with the library npm,
-- and createNewRegistry.
use Prim.Native.String.{◌++◌ as append}
use keys.Prelude.{
  ℕ, Bool, true, false, Option, none, some, List, [], ◌∷◌, String, ◌==◌, Exec, Result, ok, throws,
  and_then, Write, whole, refused, torn, pure, throw, lift, reads, ◌>>=◌, ◌>>◌, if◌then◌else◌,
}
use keys.Registry.{
  Registry, Directory, Folder, found, fails, missing, Package, PackageInDb, db_exists, Validated,
  valid, invalid, Thrown, no_packages_back,
}
use keys.Registry.Methods.{get_packages_from_db, add_package_to_db, remove_package_from_db, enoent}
use keys.Registry.Loading.{Exports, LoadedAddOn, load}

pub record ManagerOptions : Type 0 where
  pub is_local : Bool
  pub force : Bool
  pub version : Option String
  pub use_link : Bool

-- The code that is not in this repository, and the machine: the ids, npm's commands on the
-- registry's folder, the entry points, and the name in the package.json of a local folder.
pub record Outside : Type 0 where
  pub uuid : ℕ → String
  pub npm : String → String → Bool → Directory → Result Thrown (Unit {0}) × Directory
  pub import_entry : String → String → Result Thrown Exports
  pub local_name : String → Result Thrown String

-- `options?.version ? packageName + "@" + options.version : packageName`
abbrev pub package_string : String → Option String → String
package_string name none = name
package_string name (some v) = if v == "" then name else append name (append "@" v)

module _ (out : Outside) where
  unfoldable pub run_npm : String → String → Bool → Exec Thrown Registry Unit
  run_npm package_name command force s = (
    (out.npm command package_name force s.directory).0,
    record s { directory = (out.npm command package_name force s.directory).1 },
  )

  abbrev pub true_package_name : String → ManagerOptions → Result Thrown String
  true_package_name name o = if o.is_local then out.local_name name else ok name

  -- `Promise.all` of the loads of one add-on's types.
  unfoldable pub load_types : String → List String → Exec Thrown Registry (List LoadedAddOn)
  load_types name [] = pure []
  load_types name (t ∷ ts) = do
    a ← load out.import_entry name t
    as_loaded ← load_types name ts
    pure (a ∷ as_loaded)

  abbrev pub call_install : Option (Exec Thrown Registry Unit) → Exec Thrown Registry Unit
  call_install none = pure tt
  call_install (some action) = action

  unfoldable pub run_scripts : List LoadedAddOn → Exec Thrown Registry Unit
  run_scripts [] = pure tt
  run_scripts (a ∷ rest) = do call_install a.exports.install; run_scripts rest

  unfoldable pub run_installs : List Package → Exec Thrown Registry Unit
  run_installs [] = pure tt
  run_installs (p ∷ ps) = do
    scripts ← load_types p.name p.types
    run_scripts scripts
    run_installs ps

  abbrev pub after_info : Validated (List Package) → Exec Thrown Registry (Validated Unit)
  after_info (invalid m) = pure (invalid m)
  after_info (valid []) = throw no_packages_back
  after_info (valid (p ∷ ps)) = do run_installs (p ∷ ps); pure (valid tt)

  abbrev pub after_add : String → Validated Unit → Exec Thrown Registry (Validated Unit)
  after_add name (invalid m) = pure (invalid m)
  after_add name (valid _) = do info ← get_packages_from_db name; after_info info

  unfoldable pub install : String → ManagerOptions → Exec Thrown Registry (Validated Unit)
  install name o = do
    run_npm (package_string name o.version) (if o.use_link then "link" else "install") o.force
    true_name ← lift (true_package_name name o)
    added ← add_package_to_db out.uuid true_name (record { force = o.force; update = false })
    after_add true_name added

  abbrev pub access : Folder → Result Thrown (Unit {0})
  access (found json) = ok tt
  access (fails e) = ok tt
  access missing = throws enoent

  unfoldable pub uninstall : String → Bool → Exec Thrown Registry Unit
  uninstall name force = do
    reads (λ s. access (s.directory.node_modules name))
    run_npm name "remove" force
    remove_package_from_db name

  unfoldable pub update : String → String → Bool → Exec Thrown Registry (Validated Unit)
  update name version force = do
    run_npm (append name (append "@" version)) "install" force
    add_package_to_db out.uuid name (record { force = true; update = true })

-- A place for a registry: its database file, if there is one, and its package.json.
pub record Site : Type 0 where
  pub database : Option (List PackageInDb)
  pub dependencies : Result Thrown (List String)

-- The outcomes of the steps of createNewRegistry: the folder, the write of package.json with what its
-- dependencies then are, the check for the database where it fails otherwise than by its absence, the
-- opening of a new database, and its table.
pub record CreateSteps : Type 0 where
  pub makes_dir : Result Thrown (Unit {0})
  pub writes_package : Write Thrown (Result Thrown (List String))
  pub checks : Result Thrown (Unit {0})
  pub opens : Result Thrown (Unit {0})
  pub adds_table : Result Thrown (Unit {0})

module _ (steps : CreateSteps) where
  -- Once opened the file is there; without its table it stands as one with no rows.
  abbrev pub open_database : Result Thrown (Unit {0}) → Site → Result Thrown (Validated Unit) × Site
  open_database (throws e) site = (throws e, site)
  open_database (ok _) site =
      (and_then steps.adds_table (λ _. ok (valid tt)), record site { database = some [] })

  abbrev pub create_database :
      Result Thrown (Unit {0})
      → Option (List PackageInDb)
      → Site
      → Result Thrown (Validated Unit) × Site
  create_database (throws e) there site = (throws e, site)
  create_database (ok _) (some rows) site = (ok (invalid db_exists), site)
  create_database (ok _) none site = open_database steps.opens site

  -- The default package.json, which lists no dependencies, is written first.
  abbrev pub write_package :
      Write Thrown (Result Thrown (List String)) → Site → Result Thrown (Validated Unit) × Site
  write_package whole site =
      create_database steps.checks site.database (record site { dependencies = ok [] })
  write_package (refused e) site = (throws e, site)
  write_package (torn e left) site = (throws e, record site { dependencies = left })

  abbrev pub in_directory : Result Thrown (Unit {0}) → Site → Result Thrown (Validated Unit) × Site
  in_directory (ok _) site = write_package steps.writes_package site
  in_directory (throws e) site = (throws e, site)

  unfoldable pub create_new_registry : Exec Thrown Site (Validated Unit)
  create_new_registry site = in_directory steps.makes_dir site

abbrev pub no_failure : CreateSteps
no_failure = record {
  makes_dir = ok tt;
  writes_package = whole;
  checks = ok tt;
  opens = ok tt;
  adds_table = ok tt;
}
