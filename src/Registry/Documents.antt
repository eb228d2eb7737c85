-- ===== src/Registry/Documents.antt =====
-- What validatePackageJSON accepts, and what of it parsePackageFromDB reads back, in
-- packages/@twokeys/addons/src/registry.ts.
use keys.Prelude.{
  Bool, true, false, Option, none, some, List, [], ◌∷◌, String, ◌≡◌, refl, ◌↔◌, any, all, keep,
  property, ◌&&◌, ok, All, arith, Bool-cases, inl, inr, if◌then◌else◌,
}
use keys.Registry.{
  is_addon_type, Entry, TwokeysPackageInfo, Metadata, absent, null, given, PackageJson, Package,
  Message, missing_info, no_entry_point, valid, invalid,
}
use keys.Registry.Document.{
  is_text, truthy, truthy_entry, check_entries, validate_types, validate_metadata,
  validate_package_json, convert_package_json_to_db_document, convert_package_for_db, check_claims,
  parse_package_from_db,
}

-- Each listed type that is an add-on type has a text for its entry point.
abbrev pub HasEntries : Entry → List String → Type 0
HasEntries e ts = All (λ t. is_addon_type t ≡ true → is_text (property t e) ≡ true) ts

check_entries_iff :
    (e : Entry) (ts : List String) → (check_entries (some e) ts ≡ ok (valid tt)) ↔ HasEntries e ts
unfolding check_entries
check_entries_iff e [] = (λ h. tt, λ h. refl)
check_entries_iff e (t ∷ ts) = ground (arith, check_entries_iff e ts)

check_entries-none :
    (ts : List String) → check_entries none ts ≡ ok (valid tt) → any is_addon_type ts ≡ false
unfolding check_entries
check_entries-none [] h = refl
check_entries-none (t ∷ ts) h = ground (arith, check_entries-none ts)

-- The metadata that an add-on package must carry.
abbrev pub IsAddOn : PackageJson → Type 0
IsAddOn json =
    (info : TwokeysPackageInfo) × (ts : List String) × (e : Entry) × (json.twokeys ≡ given info)
    × (info.types ≡ some ts)
    × (info.entry ≡ some e)
    × (any is_addon_type ts ≡ true)
    × HasEntries e ts

validate_types_sound :
    (entry : Option Entry) (types : Option (List String))
    → validate_types entry types ≡ ok (valid tt)
    → (ts : List String) × (e : Entry) × (types ≡ some ts)
      × (entry ≡ some e)
      × (any is_addon_type ts ≡ true)
      × HasEntries e ts
unfolding validate_types
validate_types_sound entry none h = absurd (ground arith)
validate_types_sound none (some ts) h = absurd (ground (arith, check_entries-none ts))
validate_types_sound (some e) (some ts) h =
    let listed : any is_addon_type ts ≡ true = ground arith in
    (ts, e, refl, refl, listed, (check_entries_iff e ts).0 (ground arith))

validate_metadata_sound :
    (json : PackageJson) (m : Metadata)
    → json.twokeys ≡ m
    → validate_metadata m ≡ ok (valid tt)
    → IsAddOn json
validate_metadata_sound json absent e h = cc
validate_metadata_sound json null e h = cc
validate_metadata_sound json (given info) e h =
    let (ts, entry, types, has, listed, texts) = validate_types_sound info.entry info.types h in
    (info, ts, entry, e, types, has, listed, texts)

validate_complete : (json : PackageJson) → IsAddOn json → validate_package_json json ≡ ok (valid tt)
unfolding validate_package_json validate_types
validate_complete json (info, ts, e, twokeys, types, entry, listed, texts) =
    rw twokeys (rw types (rw entry (rw listed ((check_entries_iff e ts).1 texts))))

-- validatePackageJSON accepts a package.json exactly if it has the key `twokeys` with a list of
-- types of which at least one is an add-on type, and `entry` holds a text for each of the listed
-- types that is an add-on type. In particular it returns, and does not throw, for each of these.
pub validate_iff :
    (json : PackageJson) → (validate_package_json json ≡ ok (valid tt)) ↔ IsAddOn json
validate_iff json = (
  λ h. validate_metadata_sound json json.twokeys refl (unfold validate_package_json in h),
  validate_complete json,
)

-- What parsePackageFromDB demands of a row on top of that: a version and a description, and no
-- entry point that is the empty text.
abbrev pub has_texts : Entry → List String → Bool
has_texts e ts = all (λ t. truthy_entry (property t e)) ts

unfoldable pub is_readable : Package → Bool
is_readable p =
    truthy p.info.version
    && truthy p.info.description
    && elim p.entry [ none ↦ false | some e ↦ has_texts e p.types ]

check_claims_read :
    (e : Entry) (ts : List String) (p : Package)
    → has_texts e (keep is_addon_type ts) ≡ true
    → check_claims (some e) (keep is_addon_type ts) p ≡ ok (valid p)
unfolding check_claims
check_claims_read e [] p h = refl
check_claims_read e (t ∷ ts) p h = ground (arith, check_claims_read e ts p)

check_claims_demand :
    (e : Entry) (ts : List String) (p q : Package)
    → check_claims (some e) (keep is_addon_type ts) p ≡ ok (valid q)
    → has_texts e (keep is_addon_type ts) ≡ true
unfolding check_claims
check_claims_demand e [] p q h = refl
check_claims_demand e (t ∷ ts) p q h = ground (arith, check_claims_demand e ts p q)

-- The message for the first type without an entry point.
abbrev pub refusal : Entry → List String → Message
refusal e [] = missing_info
refusal e (t ∷ ts) =
    let rest = refusal e ts in if truthy_entry (property t e) then rest else no_entry_point t

check_claims_refuse :
    (e : Entry) (ts : List String) (p : Package)
    → has_texts e (keep is_addon_type ts) ≡ false
    → check_claims (some e) (keep is_addon_type ts) p
      ≡ ok (invalid (refusal e (keep is_addon_type ts)))
unfolding check_claims
check_claims_refuse e [] p h = cc
check_claims_refuse e (t ∷ ts) p h = ground (arith, check_claims_refuse e ts p)

-- The `Package` that is read back of a stored one: it has the id of its row.
abbrev pub with_id : String → Package → Package
with_id id doc = record doc { id = some id }

-- What conversion makes of the metadata of an add-on.
module _ (json : PackageJson) (info : TwokeysPackageInfo) (ts : List String) (e : Entry)
    (doc : Package) (twokeys : json.twokeys ≡ given info) (types : info.types ≡ some ts)
    (entry : info.entry ≡ some e)
    (converted : convert_package_json_to_db_document json ≡ ok doc) where
  converted_types : doc.types ≡ keep is_addon_type ts
  unfolding convert_package_json_to_db_document
  converted_types = ground arith

  converted_entry : doc.entry ≡ some e
  unfolding convert_package_json_to_db_document
  converted_entry = ground arith

stored_read :
    (id : String) (doc : Package) (ts : List String) (e : Entry)
    → doc.types ≡ keep is_addon_type ts
    → doc.entry ≡ some e
    → (parse_package_from_db (convert_package_for_db id doc) ≡ ok (valid (with_id id doc)))
      ↔ (is_readable doc ≡ true)
unfolding parse_package_from_db convert_package_for_db is_readable
stored_read id doc ts e types entry = ground (
  arith,
  check_claims_read e ts (with_id id doc),
  check_claims_demand e ts (with_id id doc) (with_id id doc),
)

-- The round trip through the database: the row that is stored for a package.json which
-- validatePackageJSON accepts is read back, as the converted package with the id of its row,
-- exactly if the package has a version and a description that are not empty, and no entry point of
-- a listed add-on type is the empty text.
pub parse-convert_iff :
    (id : String) (json : PackageJson) (doc : Package)
    → validate_package_json json ≡ ok (valid tt)
    → convert_package_json_to_db_document json ≡ ok doc
    → (parse_package_from_db (convert_package_for_db id doc) ≡ ok (valid (with_id id doc)))
      ↔ (is_readable doc ≡ true)
parse-convert_iff id json doc accepted converted =
    let (info, ts, e, twokeys, types, entry, _, _) = (validate_iff json).0 accepted in
    stored_read id doc ts e (converted_types json info ts e doc twokeys types entry converted)
      (converted_entry json info ts e doc twokeys types entry converted)

stored_refused :
    (id : String) (doc : Package) (ts : List String) (e : Entry)
    → doc.types ≡ keep is_addon_type ts
    → doc.entry ≡ some e
    → is_readable doc ≡ false
    → (m : Message) × (parse_package_from_db (convert_package_for_db id doc) ≡ ok (invalid m))
unfolding parse_package_from_db convert_package_for_db is_readable
stored_refused id doc ts e types entry h =
    elim (Bool-cases (truthy doc.info.version && truthy doc.info.description)) [
      | inl has ↦ (
        refusal e (keep is_addon_type ts),
        ground (arith, check_claims_refuse e ts (with_id id doc)),
      )
      | inr lacks ↦ (missing_info, rw lacks)
    ]

-- A row stored for an accepted package.json that is not readable is refused with a message.
pub parse-convert_refused :
    (id : String) (json : PackageJson) (doc : Package)
    → validate_package_json json ≡ ok (valid tt)
    → convert_package_json_to_db_document json ≡ ok doc
    → is_readable doc ≡ false
    → (m : Message) × (parse_package_from_db (convert_package_for_db id doc) ≡ ok (invalid m))
parse-convert_refused id json doc accepted converted h =
    let (info, ts, e, twokeys, types, entry, _, _) = (validate_iff json).0 accepted in
    stored_refused id doc ts e (converted_types json info ts e doc twokeys types entry converted)
      (converted_entry json info ts e doc twokeys types entry converted) h
