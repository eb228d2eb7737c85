-- ===== src/Software.antt =====
-- packages/@twokeys/addons/src/software.ts, software-query-provider.ts and the types of
-- util/interfaces.ts that they use: the software of add-ons and its executables.
pub mod Tables
pub mod Provider
pub mod Methods
pub mod Updating
mod Consistency
mod Reachable
mod Installs
mod Lookups
pub mod Executables
mod Removal
mod Rollback
mod Moving
mod Tests
use keys.Prelude.{ℕ, Bool, true, false, Option, List, String, Result, snoc, Exec}

pub data SqlBool : Type 0 where
  sql_false sql_true : SqlBool

-- `x ? SQLBool.True : SQLBool.False`
abbrev pub to_sql : Bool → SqlBool
to_sql true = sql_true
to_sql false = sql_false

-- `x === SQLBool.False ? false : true`
abbrev pub from_sql : SqlBool → Bool
from_sql sql_false = false
from_sql sql_true = true

pub data SoftwareDownloadTypes : Type 0 where
  standalone zip no_download : SoftwareDownloadTypes

pub record Executable : Type 0 where
  pub name : String
  pub path : String
  pub arch : String
  pub os : Option String
  pub user_installed : Option Bool

pub record BaseSoftware : Type 0 where
  pub name : String
  pub url : String
  pub homepage : String
  pub download_type : SoftwareDownloadTypes
  pub filename : Option String

pub record Software : Type 0 where
  pub base : BaseSoftware
  pub no_auto_install : Option Bool
  pub executables : List Executable

-- The rows of the tables. `arch` is NULL where an update adds an executable without it.
pub record SoftwareDirectlyFromDb : Type 0 where
  pub id : String
  pub name : String
  pub url : String
  pub homepage : String
  pub owner_name : String
  pub installed : SqlBool
  pub download_type : SoftwareDownloadTypes
  pub no_auto_install : SqlBool

pub record ExecutableDirectlyFromDb : Type 0 where
  pub id : String
  pub name : String
  pub path : String
  pub arch : Option String
  pub os : String
  pub user_installed : SqlBool
  pub software_id : String

pub record ExecutableInDb : Type 0 where
  pub id : String
  pub name : String
  pub path : String
  pub arch : Option String
  pub os : String
  pub user_installed : Bool
  pub software_id : String

pub record SoftwareInDb : Type 0 where
  pub base : BaseSoftware
  pub id : String
  pub owner_name : String
  pub executables : List ExecutableInDb
  pub installed : Bool
  pub no_auto_install : Bool

-- A statement that a constraint of a table refuses has the table's name in its message.
pub data Table : Type 0 where
  software executables : Table

pub data Thrown : Type 0 where
  constraint : Table → Thrown
  software_name_used executable_name_used : Thrown
  enoent : String → Thrown
  no_software_id : String → Thrown
  no_path : String → Thrown
  foreign : Thrown

-- What is done outside the database: downloads, unpacking, copies and deletions of folders.
pub data Effect : Type 0 where
  download : String → String → Effect
  extract : String → String → Effect
  copy : String → String → Effect
  remove : String → Effect

-- The two tables, what was done outside, in order, and how many ids have been generated.
pub record Store : Type 0 where
  pub softwares : List SoftwareDirectlyFromDb
  pub executables : List ExecutableDirectlyFromDb
  pub effects : List Effect
  pub generated : ℕ

-- The libraries and the system: the n-th id of `uuid`, `path.join`, `path.basename`,
-- `process.platform`, and whether an effect succeeds after the ones before it.
pub record Outside : Type 0 where
  pub uuid : ℕ → String
  pub join : String → String → String
  pub basename : String → String
  pub platform : String
  pub attempt : List Effect → Effect → Result Thrown (Unit {0})

abbrev pub perform : Outside → Effect → Exec Thrown Store Unit
perform out e s = (out.attempt s.effects e, record s { effects = snoc s.effects e })
