-- ===== src/Registry/Document.antt =====
-- packages/@twokeys/addons/src/registry.ts: validatePackageJSON, convertPackageJSONToDBDocument,
-- convertPackageForDB and parsePackageFromDB, which compute on one package each.
use keys.Prelude.{
  Bool, true, false, Option, none, some, List, [], ◌∷◌, String, ◌==◌, property, not, any, keep,
  ◌&&◌, Result, ok, throws, and_then, if◌then◌else◌,
}
use keys.Registry.{
  is_addon_type, EntryValue, path, other, Entry, TwokeysPackageInfo, Metadata, absent, null, given,
  PackageJson, Info, Package, JsonText, stringified, malformed, PackageInDb, missing_info,
  invalid_type, no_entry_point, no_metadata, no_valid_type, entry_not_found, Validated, valid,
  invalid, Thrown, syntax_error, type_error,
}

-- `typeof value === "string"`, of a key that may be missing.
abbrev pub is_text : Option EntryValue → Bool
is_text none = false
is_text (some (path p)) = true
is_text (some (other b)) = false

-- The truthiness of an optional text, and of the value of a key.
abbrev pub truthy : Option String → Bool
truthy none = false
truthy (some s) = not (s == "")

abbrev pub truthy_entry : Option EntryValue → Bool
truthy_entry none = false
truthy_entry (some (path p)) = not (p == "")
truthy_entry (some (other b)) = b

-- The body of the loop over `packageJSON.twokeys.types`, for a valid type; `hasOwnProperty` of an
-- undefined `entry` throws.
abbrev pub check_entry :
    Option Entry → String → Result Thrown (Validated Unit) → Result Thrown (Validated Unit)
check_entry none t rest = throws type_error
check_entry (some e) t rest =
    if is_text (property t e) then rest else ok (invalid (entry_not_found t))

unfoldable pub check_entries : Option Entry → List String → Result Thrown (Validated Unit)
check_entries entry [] = ok (valid tt)
check_entries entry (t ∷ ts) =
    let rest = check_entries entry ts in if is_addon_type t then check_entry entry t rest else rest

unfoldable pub validate_types : Option Entry → Option (List String) → Result Thrown (Validated Unit)
validate_types entry none = ok (invalid no_valid_type)
validate_types entry (some types) =
    if any is_addon_type types then check_entries entry types else ok (invalid no_valid_type)

abbrev pub validate_metadata : Metadata → Result Thrown (Validated Unit)
validate_metadata absent = ok (invalid no_metadata)
validate_metadata null = ok (invalid no_valid_type)
validate_metadata (given info) = validate_types info.entry info.types

unfoldable pub validate_package_json : PackageJson → Result Thrown (Validated Unit)
validate_package_json package_json = validate_metadata package_json.twokeys

-- `if (x) { info.x = x; }`
abbrev pub optional : Option String → Option String
optional none = none
optional (some s) = if s == "" then none else some s

abbrev pub convert_types :
    PackageJson → TwokeysPackageInfo → Option (List String) → Result Thrown Package
convert_types json twokeys none = throws type_error
convert_types json twokeys (some types) = ok (record {
  id = none;
  name = json.name;
  types = keep is_addon_type types;
  info = record {
    version = json.version;
    description = json.description;
    display_name = optional twokeys.display_name;
    icon_url = optional twokeys.icon_url;
  };
  entry = twokeys.entry;
})

abbrev pub convert_metadata : PackageJson → Metadata → Result Thrown Package
convert_metadata json absent = throws type_error
convert_metadata json null = throws type_error
convert_metadata json (given twokeys) = convert_types json twokeys twokeys.types

unfoldable pub convert_package_json_to_db_document : PackageJson → Result Thrown Package
convert_package_json_to_db_document json = convert_metadata json json.twokeys

-- The id is the `uuidv4()` that the code makes here.
unfoldable pub convert_package_for_db : String → Package → PackageInDb
convert_package_for_db id p = record {
  id = id;
  name = p.name;
  types = stringified p.types;
  info = stringified (some p.info);
  entry = stringified p.entry;
}

abbrev pub json_parse : {A : Type 0} → JsonText A → Result Thrown A
json_parse (stringified a) = ok a
json_parse malformed = throws syntax_error

-- The body of the loop over `returned.types`; a key of `null` throws.
abbrev pub check_claim :
    Option Entry → String → Result Thrown (Validated Package) → Result Thrown (Validated Package)
check_claim none t rest = throws type_error
check_claim (some e) t rest =
    if truthy_entry (property t e) then rest else ok (invalid (no_entry_point t))

unfoldable pub check_claims :
    Option Entry → List String → Package → Result Thrown (Validated Package)
check_claims entry [] p = ok (valid p)
check_claims entry (t ∷ ts) p =
    let rest = check_claims entry ts p in
    if is_addon_type t then check_claim entry t rest else ok (invalid (invalid_type t))

-- After `info` has been validated.
abbrev pub parse_types : PackageInDb → Info → Result Thrown (Validated Package)
parse_types row info = and_then (json_parse row.types) λ types.
    and_then (json_parse row.entry) λ entry.
      check_claims entry types
        (record { id = some row.id; name = row.name; types = types; info = info; entry = entry })

abbrev pub parse_info : PackageInDb → Option Info → Result Thrown (Validated Package)
parse_info row none = ok (invalid missing_info)
parse_info row (some info) =
    if truthy info.version && truthy info.description
    then parse_types row info
    else ok (invalid missing_info)

unfoldable pub parse_package_from_db : PackageInDb → Result Thrown (Validated Package)
parse_package_from_db row = and_then (json_parse row.info) (parse_info row)
