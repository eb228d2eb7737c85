-- ===== src/Registry.antt =====
-- packages/@twokeys/addons/src/registry.ts and util/interfaces.ts: the data of the add-on registry.
-- A package.json holds what the code reads of it; a text column of the database holds JSON, and is
-- told apart only by what `JSON.parse` makes of it. The operations are in the modules below.
mod Document
mod Table
pub mod Methods
mod Loading
pub mod Installing
mod Uniqueness
mod Documents
mod Adding
mod Reindexing
mod Lookups
mod Removing
mod Installs
mod Reachable
mod Specification
mod Client
mod Refinement
mod Tests
use keys.Prelude.{ℕ, Bool, Option, none, some, List, [], ◌∷◌, String, includes, Result}

abbrev pub addon_types : List String
addon_types = "executor" ∷ "detector" ∷ "pack" ∷ "library" ∷ "extension" ∷ []

-- `TWOKEYS_ADDON_TYPES_ARRAY.includes`
unfoldable pub is_addon_type : String → Bool
is_addon_type t = includes addon_types t

-- The value of a key of `entry`: a text, or some other value, of which only the truthiness counts.
pub data EntryValue : Type 0 where
  path : String → EntryValue
  other : Bool → EntryValue

abbrev pub Entry : Type 0
Entry = List (String × EntryValue)

-- The key `twokeys` of a package.json, with `types` and `entry` where they are given.
pub record TwokeysPackageInfo : Type 0 where
  pub types : Option (List String)
  pub entry : Option Entry
  pub display_name : Option String
  pub icon_url : Option String

pub data Metadata : Type 0 where
  absent : Metadata
  null : Metadata
  given : TwokeysPackageInfo → Metadata

pub record PackageJson : Type 0 where
  pub name : String
  pub version : Option String
  pub description : Option String
  pub twokeys : Metadata

-- `info` of a `Package`. Its `size` is always `null`.
pub record Info : Type 0 where
  pub version : Option String
  pub description : Option String
  pub display_name : Option String
  pub icon_url : Option String

pub record Package : Type 0 where
  pub id : Option String
  pub name : String
  pub types : List String
  pub info : Info
  pub entry : Option Entry

-- A text, as `JSON.stringify` made it of a value, or one that `JSON.parse` refuses. An `undefined`
-- value is stored as NULL, which reads back as `null`; both are `none`.
pub data JsonText (A : Type 0) : Type 0 where
  stringified : A → JsonText A
  malformed : JsonText A

pub record PackageInDb : Type 0 where
  pub id : String
  pub name : String
  pub types : JsonText (List String)
  pub info : JsonText (Option Info)
  pub entry : JsonText (Option Entry)

pub data Message : Type 0 where
  missing_info : Message
  invalid_type : String → Message
  no_entry_point : String → Message
  already_in_registry : Message
  no_metadata : Message
  no_valid_type : Message
  entry_not_found : String → Message
  db_exists : Message

-- `ValidatorReturn`, with the value that comes beside `status: true`.
pub data Validated (A : Type 0) : Type 0 where
  valid : A → Validated A
  invalid : Message → Validated A

-- What the methods throw. A `load_failure` has the code with its suffix.
pub data Thrown : Type 0 where
  syntax_error type_error constraint : Thrown
  not_installed : String → Thrown
  db_load_fail : Message → Thrown
  not_in_registry : String → Thrown
  multiple_addons : Thrown
  entry_missing : String → Thrown
  load_failure : String → Thrown
  detectors_need_client : Thrown
  unparsable : Message → Thrown
  no_packages_back : Thrown
  foreign : Option String → Thrown

-- `err.code`
abbrev pub error_code : Thrown → Option String
error_code constraint = some "SQLITE_CONSTRAINT"
error_code (db_load_fail m) = some "ADDON_DB_LOAD_FAIL"
error_code (not_in_registry n) = some "ADDON_DB_ENOENT"
error_code (load_failure c) = some c
error_code (foreign c) = c
error_code _ = none

-- A folder of node_modules: it may be missing, and its package.json may fail to be read or parsed.
pub data Folder : Type 0 where
  found : PackageJson → Folder
  fails : Thrown → Folder
  missing : Folder

-- The registry's folder: the package.json of each folder of node_modules, and the keys of
-- `dependencies` in the folder's own package.json.
pub record Directory : Type 0 where
  pub node_modules : String → Folder
  pub dependencies : Result Thrown (List String)

-- The table `packages` of the database, the folder, and how many ids have been generated.
pub record Registry : Type 0 where
  pub rows : List PackageInDb
  pub directory : Directory
  pub generated : ℕ
