-- ===== src/Registry/Methods.antt =====
-- packages/@twokeys/addons/src/registry.ts: the methods on the registry's database, as actions on
-- the registry. `uuid n` is the n-th id that the library `uuid` makes. Opening the database
-- (`initDB`) and logging change nothing that these methods read.
use keys.Prelude.{
  ℕ, suc, Bool, false, Option, none, some, List, [], ◌∷◌, String, ◌==◌, Exec, Result, ok, throws,
  and_then, pure, throw, lift, reads, modify, try_catch, ◌>>=◌, ◌>>◌, if◌then◌else◌,
}
use keys.Registry.{
  Registry, Package, PackageJson, PackageInDb, Folder, found, fails, missing, already_in_registry,
  Validated, valid, invalid, Thrown, not_installed, foreign, error_code,
}
use keys.Registry.Document.{
  validate_package_json, convert_package_json_to_db_document, convert_package_for_db,
  parse_package_from_db,
}
use keys.Registry.Table.{select_by_name, delete_by_name, insert, update_by_name}

pub record AddPackageOptions : Type 0 where
  pub force : Bool
  pub update : Bool

abbrev pub no_options : AddPackageOptions
no_options = record { force = false; update = false }

-- The body of the loop of `getPackagesFromDB`: the first row that does not parse ends it.
abbrev pub collect :
    Validated Package
    → Result Thrown (Validated (List Package))
    → Result Thrown (Validated (List Package))
collect (invalid m) rest = ok (invalid m)
collect (valid p) (throws e) = throws e
collect (valid p) (ok (invalid m)) = ok (invalid m)
collect (valid p) (ok (valid ps)) = ok (valid (p ∷ ps))

unfoldable pub parse_rows : List PackageInDb → Result Thrown (Validated (List Package))
parse_rows [] = ok (valid [])
parse_rows (row ∷ rows) =
    let rest = parse_rows rows in and_then (parse_package_from_db row) (λ v. collect v rest)

unfoldable pub get_packages_from_db : String → Exec Thrown Registry (Validated (List Package))
get_packages_from_db name = reads λ s. parse_rows (select_by_name name s.rows)

unfoldable pub remove_package_from_db : String → Exec Thrown Registry Unit
remove_package_from_db name = modify λ s. record s { rows = delete_by_name name s.rows }

-- A statement that writes the table: it changes nothing if it fails.
abbrev pub commit : Result Thrown (List PackageInDb) → Exec Thrown Registry (Validated Unit)
commit (throws e) s = (throws e, s)
commit (ok rows) s = (ok (valid tt), record s { rows = rows })

unfoldable pub run_statement : Bool → PackageInDb → Exec Thrown Registry (Validated Unit)
run_statement update row s =
    commit (if update then update_by_name row.name row s.rows else insert row s.rows) s

abbrev pub enoent : Thrown
enoent = foreign (some "ENOENT")

abbrev pub read_file : Folder → Result Thrown PackageJson
read_file (found json) = ok json
read_file (fails e) = throws e
read_file missing = throws enoent

-- `fs.access` and `fs.readFile` of the package.json, and `JSON.parse`.
unfoldable pub read_package_json : String → Exec Thrown Registry PackageJson
read_package_json name = reads λ s. read_file (s.directory.node_modules name)

-- `err?.code === "ENOENT"`
abbrev pub has_code : String → Option String → Bool
has_code c none = false
has_code c (some d) = d == c

module _ (uuid : ℕ → String) where
  unfoldable pub uuidv4 : Exec Thrown Registry String
  uuidv4 s = (ok (uuid s.generated), record s { generated = suc s.generated })

  abbrev pub store_validated :
      AddPackageOptions → PackageJson → Validated Unit → Exec Thrown Registry (Validated Unit)
  store_validated o json (invalid m) = pure (invalid m)
  store_validated o json (valid _) = do
    doc ← lift (convert_package_json_to_db_document json)
    id ← uuidv4
    run_statement o.update (convert_package_for_db id doc)

  -- The body of the `try` of `addPackageToDB`.
  unfoldable pub store_package : String → AddPackageOptions → Exec Thrown Registry (Validated Unit)
  store_package name o = do
    json ← read_package_json name
    validation ← lift (validate_package_json json)
    store_validated o json validation

  abbrev pub rethrow : String → Thrown → Exec Thrown Registry (Validated Unit)
  rethrow name e = if has_code "ENOENT" (error_code e) then throw (not_installed name) else throw e

  unfoldable pub install_row : String → AddPackageOptions → Exec Thrown Registry (Validated Unit)
  install_row name o = try_catch (store_package name o) (rethrow name)

  abbrev pub after_query :
      String → AddPackageOptions → Validated (List Package) → Exec Thrown Registry (Validated Unit)
  after_query name o (invalid m) = pure (invalid m)
  after_query name o (valid []) = install_row name o
  after_query name o (valid (_ ∷ _)) =
      if o.force
      then (if o.update
          then install_row name o
          else (do remove_package_from_db name; install_row name o))
      else pure (invalid already_in_registry)

  unfoldable pub add_package_to_db :
      String → AddPackageOptions → Exec Thrown Registry (Validated Unit)
  add_package_to_db name o = do state ← get_packages_from_db name; after_query name o state

  -- The loop of `reindex`: a package that is not valid is ignored, a throw ends the loop.
  unfoldable pub add_all : List String → Exec Thrown Registry Unit
  add_all [] = pure tt
  add_all (dep ∷ deps) = do status ← add_package_to_db dep no_options; add_all deps

  unfoldable pub wipe : Exec Thrown Registry Unit
  wipe = modify λ s. record s { rows = [] }

  unfoldable pub reindex : Exec Thrown Registry Unit
  reindex = do wipe; deps ← reads (λ s. s.directory.dependencies); add_all deps
