-- ===== src/Software/Updating.antt =====
-- packages/@twokeys/addons/src/software.ts: updateSoftware and updateSoftwareRecord. `copy-contents`
-- is one effect here.
use keys.Prelude.{
  Bool, false, Option, none, some, List, [], String, ◌==◌, ◌||◌, ◌&&◌, not, any, Exec, Result, ok,
  throws, pure, throw, reads, ◌>>=◌, ◌>>◌, if◌then◌else◌, is_some,
}
use keys.Software.{
  SoftwareInDb, SoftwareDirectlyFromDb, ExecutableDirectlyFromDb, SoftwareDownloadTypes, to_sql,
  Store, Thrown, software, executables, no_software_id, no_path, copy, remove, Outside, perform,
}
use keys.Software.Tables.{called, software_conflicts, executable_conflicts, id_of, update_where}
use keys.Software.Methods.{
  or_else, is_set, commit_softwares, commit_executables, insert_executable, run_all, folder_of,
  uuidv4, run_install, get_software,
}

-- An executable of `newData`: only its name is required.
pub record PartialExecutable : Type 0 where
  pub name : String
  pub path : Option String
  pub arch : Option String
  pub os : Option String
  pub user_installed : Option Bool

-- `PartialSoftware`, without `filename`, which is not stored.
pub record PartialSoftware : Type 0 where
  pub name : Option String
  pub url : Option String
  pub homepage : Option String
  pub download_type : Option SoftwareDownloadTypes
  pub no_auto_install : Option Bool
  pub executables : Option (List PartialExecutable)

abbrev pub given : {A : Type 0} → Option A → A → A
given none old = old
given (some new) old = new

-- The statement has at least one `key = value`.
abbrev pub sets_column : PartialSoftware → Bool
sets_column d =
    is_some d.name
    || is_some d.url
    || is_some d.homepage
    || is_some d.download_type
    || is_some d.no_auto_install

-- `Object.keys(newData).length === 0`
abbrev pub nothing_given : PartialSoftware → Bool
nothing_given d = not (sets_column d || is_some d.executables)

abbrev pub set_columns : PartialSoftware → SoftwareDirectlyFromDb → SoftwareDirectlyFromDb
set_columns d row = record row {
  name = given d.name row.name;
  url = given d.url row.url;
  homepage = given d.homepage row.homepage;
  download_type = given d.download_type row.download_type;
  no_auto_install = elim d.no_auto_install [ none ↦ row.no_auto_install | some b ↦ to_sql b ];
}

-- `typeof newData.name !== "undefined" && name !== newData.name`
abbrev pub renames : PartialSoftware → String → Bool
renames d name = elim d.name [ none ↦ false | some new ↦ not (new == name) ]

module _ (out : Outside) (directory owner : String) where
  abbrev pub stored_path : String → PartialExecutable → String → String
  stored_path software_name e path =
      if is_set e.user_installed
      then path
      else out.join (folder_of out directory owner software_name) path

  unfoldable pub insert_at :
      String → String → PartialExecutable → Option String → Exec Thrown Store Unit
  insert_at software_name software_id e none = throw (no_path e.name)
  insert_at software_name software_id e (some path) = uuidv4 out directory owner >>= λ id.
      insert_executable record {
        id = id;
        name = e.name;
        path = stored_path software_name e path;
        arch = e.arch;
        os = or_else e.os out.platform;
        user_installed = to_sql (is_set e.user_installed);
        software_id = software_id;
      }

  abbrev pub set_executable :
      String → PartialExecutable → ExecutableDirectlyFromDb → ExecutableDirectlyFromDb
  set_executable software_name e row = record row {
    path = elim e.path [ none ↦ row.path | some path ↦ stored_path software_name e path ];
    arch = elim e.arch [ none ↦ row.arch | some a ↦ some a ];
    os = given e.os row.os;
    user_installed = elim e.user_installed [ none ↦ row.user_installed | some b ↦ to_sql b ];
  }

  -- UPDATE executables SET … WHERE name = @name AND softwareId = @softwareId
  abbrev pub write_executable : String → String → PartialExecutable → Exec Thrown Store Unit
  write_executable software_name software_id e s =
      commit_executables
        (update_where executable_conflicts executables (called e.name software_id)
          (set_executable software_name e) s.executables)
        s

  -- `before` is the table when the query was run: all these queries are run before the first write.
  unfoldable pub update_executable :
      List ExecutableDirectlyFromDb → String → String → PartialExecutable → Exec Thrown Store Unit
  update_executable before software_name software_id e =
      if any (called e.name software_id) before
      then write_executable software_name software_id e
      else insert_at software_name software_id e e.path

  unfoldable pub update_executables :
      String → String → List PartialExecutable → Exec Thrown Store Unit
  update_executables software_name software_id es s =
      run_all (update_executable s.executables software_name software_id) es s

  -- UPDATE software SET … WHERE id = @id AND ownerName = @ownerName
  abbrev pub write_row : PartialSoftware → String → Exec Thrown Store Unit
  write_row d id s =
      commit_softwares
        (update_where software_conflicts software (λ row. row.id == id && row.owner_name == owner)
          (set_columns d) s.softwares)
        s

  unfoldable pub update_row : PartialSoftware → String → Exec Thrown Store Unit
  update_row d id = if sets_column d then write_row d id else pure tt

  abbrev pub found_id : String → Option String → Result Thrown String
  found_id name none = throws (no_software_id name)
  found_id name (some id) = ok id

  unfoldable pub update_software_record : String → PartialSoftware → Exec Thrown Store Unit
  update_software_record name d =
      reads (λ s. found_id (or_else d.name name) (id_of name owner s.softwares)) >>= λ id.
      update_row d id >> update_executables (or_else d.name name) id (given d.executables [])

  unfoldable pub move_folder : String → PartialSoftware → Exec Thrown Store Unit
  move_folder name d =
      if renames d name
      then (perform out (
            copy (folder_of out directory owner name)
              (folder_of out directory owner (given d.name name)))
          >> perform out (remove (folder_of out directory owner name)))
      else pure tt

  unfoldable pub reinstall_software : String → SoftwareInDb → Exec Thrown Store Unit
  reinstall_software name record_before =
      if record_before.no_auto_install
      then pure tt
      else (perform out (remove (folder_of out directory owner name))
          >> (get_software out directory owner name >>= λ s.
              run_install out directory owner s.base s.no_auto_install))

  unfoldable pub update_software : String → PartialSoftware → Bool → Exec Thrown Store Unit
  update_software name d reinstall =
      (if nothing_given d then pure tt else update_software_record name d)
      >> (get_software out directory owner (or_else d.name name) >>= λ new_record.
          move_folder name d
          >> (if reinstall then reinstall_software (or_else d.name name) new_record else pure tt))
