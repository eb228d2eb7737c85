-- ===== src/Registry/Tests.antt =====
-- The registry's theorems at concrete packages, and runs of its methods.
use keys.Prelude.{
  ◌>>◌, ℕ, zero, suc, true, false, none, some, [], ◌∷◌, String, ◌≡◌, ◌≢◌, ◌↔◌, refl, ap, Result,
  property, ok, throws, ◌>>=◌,
}
use keys.Registry.{
  is_addon_type, path, TwokeysPackageInfo, given, PackageJson, Package, Directory, found, missing,
  Registry, Message, no_metadata, absent, valid, invalid, Thrown, multiple_addons, load_failure,
  foreign,
}
use keys.Registry.Document.{
  validate_package_json, convert_package_json_to_db_document, convert_package_for_db,
  parse_package_from_db, validate_types, check_entries, check_claims,
}
use keys.Registry.Methods.{
  reindex, AddPackageOptions, no_options, get_packages_from_db, add_package_to_db, parse_rows,
}
use keys.Registry.Table.{select_by_name, delete_by_name, distinct}
use keys.Registry.Lookups.{get-reindex}
use keys.Registry.Documents.{IsAddOn, validate_iff, is_readable, with_id, parse-convert_iff}
use keys.Registry.Uniqueness.{IsConsistent}
use keys.Registry.Adding.{added, add_new, add_stuck, force_loses}
use keys.Registry.Removing.{load-ne-multiple}
use keys.Registry.Loading.{Exports, load, load_package}
use keys.Registry.Installing.{
  Outside, ManagerOptions, load_types, Site, create_new_registry, no_failure,
}

-- Ids that are all different.
abbrev pub uuid : ℕ → String
uuid zero = ""
uuid (suc n) = String.◌∷◌ "x" (uuid n)

pub uuid_injective : (m n : ℕ) → uuid m ≡ uuid n → m ≡ n
uuid_injective zero zero e = refl
uuid_injective zero (suc n) e = cc
uuid_injective (suc m) zero e = cc
uuid_injective (suc m) (suc n) e = ap suc (uuid_injective m n (cc))

-- The package.json of an executor, with and without a description.
abbrev pub metadata : TwokeysPackageInfo
metadata = record {
  types = some ("executor" ∷ "made-up" ∷ []);
  entry = some (("executor", path "lib/index.js") ∷ []);
  display_name = none;
  icon_url = none;
}

abbrev pub ahk_json : PackageJson
ahk_json = record {
  name = "ahk";
  version = some "1.0.0";
  description = some "AutoHotkey";
  twokeys = given metadata;
}

abbrev terse_json : PackageJson
terse_json = record {
  name = "terse";
  version = some "1.0.0";
  description = none;
  twokeys = given metadata;
}

abbrev plain_json : PackageJson
plain_json = record { name = "plain"; version = none; description = none; twokeys = absent }

abbrev pub converted : PackageJson → Package
converted json = record {
  id = none;
  name = json.name;
  types = "executor" ∷ [];
  info = record {
    version = json.version;
    description = json.description;
    display_name = none;
    icon_url = none;
  };
  entry = metadata.entry;
}

abbrev pub ahk_package : Package
ahk_package = converted ahk_json

abbrev pub folder_of : PackageJson → Directory
folder_of json = record { node_modules = λ name. found json; dependencies = ok (json.name ∷ []) }

abbrev pub empty : PackageJson → Registry
empty json = record { rows = []; directory = folder_of json; generated = 0 }

abbrev pub with_ahk : Registry
with_ahk = added uuid (empty ahk_json) ahk_package

IsConsistent-ahk : IsConsistent with_ahk
unfolding distinct
IsConsistent-ahk = refl

IsConsistent-empty : IsConsistent (empty ahk_json)
unfolding distinct
IsConsistent-empty = refl

validate_iff_example : (validate_package_json ahk_json ≡ ok (valid tt)) ↔ IsAddOn ahk_json
validate_iff_example = validate_iff ahk_json

pub accepts_ahk : validate_package_json ahk_json ≡ ok (valid tt)
unfolding validate_package_json validate_types check_entries is_addon_type property
accepts_ahk = refl

accepts_terse : validate_package_json terse_json ≡ ok (valid tt)
unfolding validate_package_json validate_types check_entries is_addon_type property
accepts_terse = refl

refuses_plain : validate_package_json plain_json ≡ ok (invalid no_metadata)
unfolding validate_package_json
refuses_plain = refl

pub converts_ahk : convert_package_json_to_db_document ahk_json ≡ ok ahk_package
unfolding convert_package_json_to_db_document is_addon_type
converts_ahk = refl

converts_terse : convert_package_json_to_db_document terse_json ≡ ok (converted terse_json)
unfolding convert_package_json_to_db_document is_addon_type
converts_terse = refl

pub reads_ahk : is_readable ahk_package ≡ true
unfolding is_readable property
reads_ahk = refl

unreadable_terse : is_readable (converted terse_json) ≡ false
unfolding is_readable property
unreadable_terse = refl

finds_ahk : (get_packages_from_db "ahk" with_ahk).0 ≡ ok (valid (with_id "" ahk_package ∷ []))
unfolding get_packages_from_db select_by_name parse_rows parse_package_from_db
    convert_package_for_db check_claims is_addon_type property ◌>>=◌
finds_ahk = refl

parse-convert_iff_example :
    (parse_package_from_db (convert_package_for_db "1" ahk_package)
      ≡ ok (valid (with_id "1" ahk_package)))
    ↔ (is_readable ahk_package ≡ true)
parse-convert_iff_example = parse-convert_iff "1" ahk_json ahk_package accepts_ahk converts_ahk

add_stuck_example :
    (add_package_to_db uuid "terse" no_options (empty terse_json)
      ≡ (ok (valid tt), added uuid (empty terse_json) (converted terse_json)))
    × (m : Message) × ((o : AddPackageOptions)
        → add_package_to_db uuid "terse" o (added uuid (empty terse_json) (converted terse_json))
          ≡ (ok (invalid m), added uuid (empty terse_json) (converted terse_json)))
add_stuck_example =
    add_stuck uuid "terse" (empty terse_json) terse_json (converted terse_json)
      (refl, accepts_terse, converts_terse) refl refl refl unreadable_terse

adds_ahk : add_package_to_db uuid "ahk" no_options (empty ahk_json) ≡ (ok (valid tt), with_ahk)
adds_ahk =
    add_new uuid "ahk" (empty ahk_json) ahk_json ahk_package (refl, accepts_ahk, converts_ahk) refl
      refl

-- The package was overwritten by one that has no metadata.
abbrev overwritten : Registry
overwritten = record with_ahk { directory = folder_of plain_json }

finds_overwritten :
    (get_packages_from_db "ahk" overwritten).0 ≡ ok (valid (with_id "" ahk_package ∷ []))
unfolding get_packages_from_db select_by_name parse_rows parse_package_from_db
    convert_package_for_db check_claims is_addon_type property ◌>>=◌
finds_overwritten = refl

force_loses_example :
    add_package_to_db uuid "ahk" (record { force = true; update = false }) overwritten ≡ (
      ok (invalid no_metadata),
      record overwritten { rows = delete_by_name "ahk" overwritten.rows },
    )
force_loses_example =
    force_loses uuid "ahk" overwritten (with_id "" ahk_package) [] plain_json no_metadata
      finds_overwritten refl refuses_plain

-- Every entry point fails to load.
abbrev pub no_entry_points : String → String → Result Thrown Exports
no_entry_points name file = throws (foreign (some "MODULE_NOT_FOUND"))

load-ne-multiple_example :
    (load no_entry_points "ahk" "executor" with_ahk).0 ≢ throws multiple_addons
load-ne-multiple_example =
    load-ne-multiple no_entry_points "ahk" "executor" with_ahk IsConsistent-ahk

abbrev site : Site
site = record { database = some with_ahk.rows; dependencies = ok ("ahk" ∷ []) }

abbrev emptied : Registry
emptied = record with_ahk {
  directory = record { node_modules = λ n. missing; dependencies = ok [] };
}

dependencies_gone :
    emptied.directory.dependencies ≡ (create_new_registry no_failure site).1.dependencies
unfolding create_new_registry
dependencies_gone = refl

abbrev pub machine : Outside
machine = record {
  uuid = uuid;
  npm = λ command name force dir. (ok tt, dir);
  import_entry = no_entry_points;
  local_name = λ name. ok name;
}

abbrev default_options : ManagerOptions
default_options = record { is_local = false; force = false; version = none; use_link = false }

load_fails :
    (load_types machine "ahk" ("executor" ∷ []) with_ahk).0
    ≡ throws (load_failure "ADDON_LOAD_FAIL:NOT_FOUND")
unfolding load_types load get_packages_from_db select_by_name parse_rows parse_package_from_db
    convert_package_for_db check_claims is_addon_type load_package property ◌>>=◌
load_fails = refl

get-reindex_example :
    (k : ℕ) × (((reindex uuid >> get_packages_from_db "ahk") with_ahk).0
      ≡ ok (valid (with_id (uuid k) ahk_package ∷ [])))
get-reindex_example =
    get-reindex uuid uuid_injective (λ d. ahk_json) (λ d. ahk_package) with_ahk ("ahk" ∷ []) "ahk"
      refl ((refl, accepts_ahk, converts_ahk), refl, refl, tt) refl reads_ahk
