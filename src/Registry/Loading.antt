-- ===== src/Registry/Loading.antt =====
-- packages/@twokeys/addons/src/registry.ts: load, loadPackage and loadAllOfType. `import_entry n f`
-- is what `import` of the file f in the folder of the package n gives; `like t c` is SQLite's
-- `c LIKE '%t%'`. Loading changes nothing of the registry.
use Prim.Native.String.{◌++◌ as append}
use keys.Prelude.{
  Bool, Option, none, some, List, [], ◌∷◌, String, ◌==◌, keep, property, Exec, Result, ok, throws,
  and_then, traverse, lift, reads, ◌>>=◌, if◌then◌else◌,
}
use keys.Registry.{
  Registry, Package, PackageInDb, Entry, EntryValue, path, other, JsonText, Validated, valid,
  invalid, Thrown, type_error, db_load_fail, not_in_registry, multiple_addons, entry_missing,
  load_failure, detectors_need_client, unparsable, foreign, error_code,
}
use keys.Registry.Document.{parse_package_from_db}
use keys.Registry.Methods.{get_packages_from_db, has_code}

-- The exports of an entry point: its `install`, where that is a function.
pub record Exports : Type 0 where
  pub install : Option (Exec Thrown Registry Unit)

pub record LoadedAddOn : Type 0 where
  pub package_loaded : Package
  pub addon_type : String
  pub exports : Exports

-- `err.code ? ":" + err.code : ""`
abbrev pub code_suffix : Option String → String
code_suffix none = ""
code_suffix (some c) = if c == "" then "" else append ":" c

-- The `catch` of `loadPackage`.
abbrev pub load_error : Thrown → Thrown
load_error e =
    if has_code "MODULE_NOT_FOUND" (error_code e)
    then load_failure "ADDON_LOAD_FAIL:NOT_FOUND"
    else load_failure (append "ADDON_LOAD_FAIL" (code_suffix (error_code e)))

abbrev pub caught {ℓ} : {A : Type ℓ} → Result Thrown A → Result Thrown A
caught (ok a) = ok a
caught (throws e) = throws (load_error e)

module _ (import_entry : String → String → Result Thrown Exports) where
  -- `path.join` throws on what is not a text.
  abbrev pub import_value : Package → String → Option EntryValue → Result Thrown LoadedAddOn
  import_value p t none = throws (entry_missing t)
  import_value p t (some (other b)) = throws (foreign (some "ERR_INVALID_ARG_TYPE"))
  import_value p t (some (path f)) =
      and_then (import_entry p.name f)
        λ exports. ok (record { package_loaded = p; addon_type = t; exports = exports })

  abbrev pub import_type : Package → String → Option Entry → Result Thrown LoadedAddOn
  import_type p t none = throws type_error
  import_type p t (some e) = import_value p t (property t e)

  unfoldable pub load_package : Package → String → Result Thrown LoadedAddOn
  load_package p t = caught (import_type p t p.entry)

  abbrev pub choose : String → String → Validated (List Package) → Result Thrown LoadedAddOn
  choose name t (invalid m) = throws (db_load_fail m)
  choose name t (valid []) = throws (not_in_registry name)
  choose name t (valid (p ∷ [])) = load_package p t
  choose name t (valid (_ ∷ _ ∷ _)) = throws multiple_addons

  unfoldable pub load : String → String → Exec Thrown Registry LoadedAddOn
  load name t = do results ← get_packages_from_db name; lift (choose name t results)

  unfoldable pub load_executor : String → Exec Thrown Registry LoadedAddOn
  load_executor name = load name "executor"

  unfoldable pub load_detector : String → Exec Thrown Registry LoadedAddOn
  load_detector name = load name "detector"

  abbrev pub parsed_or_throw : Validated Package → Result Thrown Package
  parsed_or_throw (valid p) = ok p
  parsed_or_throw (invalid m) = throws (unparsable m)

  abbrev pub parse_or_throw : PackageInDb → Result Thrown Package
  parse_or_throw row = and_then (parse_package_from_db row) parsed_or_throw

  module _ (like : String → JsonText (List String) → Bool) where
    -- SELECT * FROM packages WHERE types LIKE ?
    unfoldable pub select_like : String → List PackageInDb → List PackageInDb
    select_like t = keep (λ row. like t row.types)

    abbrev pub load_rows : String → List PackageInDb → Result Thrown (List LoadedAddOn)
    load_rows t rows =
        and_then (traverse parse_or_throw (select_like t rows)) (traverse (λ p. load_package p t))

    unfoldable pub load_all_of_type : String → Exec Thrown Registry (List LoadedAddOn)
    load_all_of_type t =
        if t == "detector"
        then lift (throws detectors_need_client)
        else reads (λ s. load_rows t s.rows)
