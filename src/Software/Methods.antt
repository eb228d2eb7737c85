-- ===== src/Software/Methods.antt =====
-- packages/@twokeys/addons/src/software.ts: the methods of one add-on's software registry, but for
-- the updates. Opening the database (`initDB`) and logging change nothing that they read.
use keys.Prelude.{
  suc, Bool, true, false, Option, none, some, List, [], ◌∷◌, String, ◌==◌, ◌||◌, Exec, Result, ok,
  throws, pure, throw, lift, modify, try_catch, ◌>>=◌, ◌>>◌, if◌then◌else◌,
}
use keys.Software.{
  Executable, BaseSoftware, Software, SoftwareInDb, SoftwareDirectlyFromDb,
  ExecutableDirectlyFromDb, SoftwareDownloadTypes, standalone, zip, no_download, sql_false,
  sql_true, to_sql, Store, Thrown, software, executables, constraint, enoent, software_name_used,
  executable_name_used, download, extract, remove, Outside, perform,
}
use keys.Software.Tables.{
  owned, called, software_conflicts, executable_conflicts, insert, update_where, delete_where,
}
use keys.Software.Provider.{
  uninstall_software, get_softwares, get_executables, get_one_software_folder,
}

-- `x || y` on a text that may be undefined.
abbrev pub or_else : Option String → String → String
or_else none y = y
or_else (some x) y = if x == "" then y else x

-- A flag that may be undefined, as a condition.
abbrev pub is_set : Option Bool → Bool
is_set none = false
is_set (some b) = b

-- A statement that writes one of the tables: it changes nothing if it fails.
abbrev pub commit_softwares : Result Thrown (List SoftwareDirectlyFromDb) → Exec Thrown Store Unit
commit_softwares (throws e) s = (throws e, s)
commit_softwares (ok rows) s = (ok tt, record s { softwares = rows })

abbrev pub commit_executables :
    Result Thrown (List ExecutableDirectlyFromDb) → Exec Thrown Store Unit
commit_executables (throws e) s = (throws e, s)
commit_executables (ok rows) s = (ok tt, record s { executables = rows })

unfoldable pub insert_software : SoftwareDirectlyFromDb → Exec Thrown Store Unit
insert_software row s = commit_softwares (insert software_conflicts software row s.softwares) s

unfoldable pub insert_executable : ExecutableDirectlyFromDb → Exec Thrown Store Unit
insert_executable row s =
    commit_executables (insert executable_conflicts executables row s.executables) s

unfoldable pub delete_software : String → String → Exec Thrown Store Unit
delete_software name owner =
    modify λ s. record s { softwares = delete_where (owned name owner) s.softwares }

-- `Promise.all`: every action is run, and the first that throws is the one that is reported.
abbrev pub first_throw :
    Result Thrown (Unit {0}) → Result Thrown (Unit {0}) → Result Thrown (Unit {0})
first_throw (throws e) r = throws e
first_throw (ok tt) r = r

unfoldable pub run_all :
    {A : Type 0} → (A → Exec Thrown Store Unit) → List A → Exec Thrown Store Unit
run_all f [] s = (ok tt, s)
run_all f (x ∷ xs) s =
    let later = run_all f xs (f x s).1 in (first_throw (f x s).0 later.0, later.1)

abbrev pub needs_no_download : SoftwareDownloadTypes → Bool
needs_no_download no_download = true
needs_no_download _ = false

module _ (out : Outside) (directory owner : String) where
  abbrev pub folder_of : String → String
  folder_of name = get_one_software_folder out.join directory name owner

  unfoldable pub uuidv4 : Exec Thrown Store String
  uuidv4 s = (ok (out.uuid s.generated), record s { generated = suc s.generated })

  abbrev pub software_row : String → Software → SoftwareDirectlyFromDb
  software_row id s = record {
    id = id;
    name = s.base.name;
    url = s.base.url;
    homepage = s.base.homepage;
    owner_name = owner;
    installed = sql_false;
    download_type = s.base.download_type;
    no_auto_install = to_sql (is_set s.no_auto_install);
  }

  abbrev pub executable_row : String → String → Executable → String → ExecutableDirectlyFromDb
  executable_row software_name software_id e id = record {
    id = id;
    name = e.name;
    path = if is_set e.user_installed then e.path else out.join (folder_of software_name) e.path;
    arch = some e.arch;
    os = or_else e.os out.platform;
    user_installed = to_sql (is_set e.user_installed);
    software_id = software_id;
  }

  unfoldable pub add_executable : String → String → Executable → Exec Thrown Store Unit
  add_executable software_name software_id e =
      uuidv4 >>= λ id. insert_executable (executable_row software_name software_id e id)

  -- What the `try` of installSoftware covers: `return this.runInstall(software)` is not awaited in it.
  unfoldable pub register : Software → Exec Thrown Store Unit
  register s = uuidv4 >>= λ id.
      insert_software (software_row id s) >> run_all (add_executable s.base.name id) s.executables

  unfoldable pub roll_back : Software → Thrown → Exec Thrown Store Unit
  roll_back s (constraint software) = throw software_name_used
  roll_back s (constraint executables) =
      delete_software s.base.name owner >> throw executable_name_used
  roll_back s e = throw e

  unfoldable pub fetch : BaseSoftware → SoftwareDownloadTypes → Exec Thrown Store Unit
  fetch b standalone =
      perform out
        (download b.url (out.join (folder_of b.name) (or_else b.filename (out.basename b.url))))
  fetch b zip =
      let archive = out.join (folder_of b.name) (or_else b.filename "tmp.zip") in
      perform out (download b.url archive) >> perform out (extract archive (folder_of b.name))
  fetch b no_download = pure tt

  -- UPDATE software SET installed = 1 WHERE name = ?
  unfoldable pub mark_installed : String → Exec Thrown Store Unit
  mark_installed name s =
      commit_softwares
        (update_where software_conflicts software (λ row. row.name == name)
          (λ row. record row { installed = sql_true }) s.softwares)
        s

  unfoldable pub run_install : BaseSoftware → Bool → Exec Thrown Store Unit
  run_install b no_auto_install =
      if no_auto_install || needs_no_download b.download_type
      then pure tt
      else (fetch b b.download_type >> mark_installed b.name)

  unfoldable pub install_software : Software → Exec Thrown Store Unit
  install_software s =
      try_catch (register s) (roll_back s) >> run_install s.base (is_set s.no_auto_install)

  abbrev pub first_or : {A : Type 0} → Thrown → List A → Result Thrown A
  first_or e [] = throws e
  first_or e (x ∷ xs) = ok x

  unfoldable pub get_software : String → Exec Thrown Store SoftwareInDb
  get_software name =
      get_softwares (some name) owner >>= λ results. lift (first_or (enoent name) results)

  unfoldable pub get_executable : String → String → Exec Thrown Store ExecutableDirectlyFromDb
  get_executable software_name name = get_executables software_name (some name) owner >>= λ results.
      lift (first_or (enoent name) results)

  unfoldable pub delete_executable : String → String → Exec Thrown Store Unit
  delete_executable software_owner name = get_software software_owner >>= λ found.
      modify λ s. record s { executables = delete_where (called name found.id) s.executables }

  unfoldable pub rename_executable : String → String → String → Exec Thrown Store Unit
  rename_executable software_owner name new_name = get_software software_owner >>= λ found. λ s.
      commit_executables
        (update_where executable_conflicts executables (called name found.id)
          (λ row. record row { name = new_name }) s.executables)
        s

  -- The folder is removed also where the database is not open.
  unfoldable pub uninstall : Bool → String → Exec Thrown Store Unit
  uninstall is_open name =
      perform out (remove (folder_of name)) >> uninstall_software is_open name owner
