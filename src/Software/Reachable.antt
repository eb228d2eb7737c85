-- ===== src/Software/Reachable.antt =====
-- The stores that calls of the methods of packages/@twokeys/addons/src/software.ts lead to.
use keys.Prelude.{Bool, Option, none, some, List, String, Preserves, preserves_rules}
use keys.Software.{Store, Outside, Software, SoftwareInDb, ExecutableDirectlyFromDb}
use keys.Software.Provider.{get_softwares}
use keys.Software.Methods.{
  install_software, get_software, delete_executable, rename_executable, uninstall,
}
use keys.Software.Updating.{
  PartialExecutable, PartialSoftware, insert_at, update_executable, update_executables, update_row,
  update_software_record, move_folder, reinstall_software, update_software,
}
use keys.Software.Consistency.{
  IsConsistent, installing-IsConsistent, uninstall_software-IsConsistent,
  update_softwares-IsConsistent, update_executables-IsConsistent, run_all-IsConsistent,
  perform-IsConsistent, run_install-IsConsistent, insert_executable-IsConsistent,
  uuidv4-IsConsistent, deleting-IsConsistent,
}

-- One call of a method, for the add-on `owner`, on the registry in `directory`.
pub data Step (out : Outside) (directory : String) (s : Store) : Store → Type 0 where
  installs :
      (owner : String) (x : Software)
      → Step out directory s (install_software out directory owner x s).1
  updates :
      (owner name : String) (d : PartialSoftware) (reinstall : Bool)
      → Step out directory s (update_software out directory owner name d reinstall s).1
  deletes :
      (owner name executable : String)
      → Step out directory s (delete_executable out directory owner name executable s).1
  renames :
      (owner name executable new : String)
      → Step out directory s (rename_executable out directory owner name executable new s).1
  uninstalls :
      (is_open : Bool) (owner name : String)
      → Step out directory s (uninstall out directory owner is_open name s).1

pub data Steps (out : Outside) (directory : String) (s : Store) : Store → Type 0 where
  done : Steps out directory s s
  then : {t u : Store} → Steps out directory s t → Step out directory t u → Steps out directory s u

module _ (out : Outside) (directory owner : String) where
  get_software-IsConsistent :
      (name : String) → Preserves IsConsistent (get_software out directory owner name)
  unfolding get_software get_softwares
  get_software-IsConsistent name = search preserves_rules

  delete_executable-IsConsistent :
      (name e : String) → Preserves IsConsistent (delete_executable out directory owner name e)
  unfolding delete_executable
  delete_executable-IsConsistent name e =
      search (preserves_rules, get_software-IsConsistent, deleting-IsConsistent)

  rename_executable-IsConsistent :
      (name e new : String)
      → Preserves IsConsistent (rename_executable out directory owner name e new)
  unfolding rename_executable
  rename_executable-IsConsistent name e new =
      search (preserves_rules, get_software-IsConsistent, update_executables-IsConsistent)

  uninstall-IsConsistent :
      (is_open : Bool) (name : String)
      → Preserves IsConsistent (uninstall out directory owner is_open name)
  unfolding uninstall
  uninstall-IsConsistent is_open name =
      search (preserves_rules, perform-IsConsistent, uninstall_software-IsConsistent)

  insert_at-IsConsistent :
      (name id : String) (e : PartialExecutable) (path : Option String)
      → Preserves IsConsistent (insert_at out directory owner name id e path)
  unfolding insert_at
  insert_at-IsConsistent name id e none = search preserves_rules
  insert_at-IsConsistent name id e (some p) =
      search (preserves_rules, uuidv4-IsConsistent, insert_executable-IsConsistent)

  update_executable-IsConsistent :
      (before : List ExecutableDirectlyFromDb) (name id : String) (e : PartialExecutable)
      → Preserves IsConsistent (update_executable out directory owner before name id e)
  unfolding update_executable
  update_executable-IsConsistent before name id e =
      search (preserves_rules, update_executables-IsConsistent, insert_at-IsConsistent)

  all_executables-IsConsistent :
      (name id : String) (es : List PartialExecutable)
      → Preserves IsConsistent (update_executables out directory owner name id es)
  unfolding update_executables
  all_executables-IsConsistent name id es = record {
    after = λ s h.
        (run_all-IsConsistent (update_executable out directory owner s.executables name id) es
            (update_executable-IsConsistent s.executables name id)).after
          s h;
  }

  update_row-IsConsistent :
      (d : PartialSoftware) (id : String)
      → Preserves IsConsistent (update_row out directory owner d id)
  unfolding update_row
  update_row-IsConsistent d id = search (preserves_rules, update_softwares-IsConsistent)

  record-IsConsistent :
      (name : String) (d : PartialSoftware)
      → Preserves IsConsistent (update_software_record out directory owner name d)
  unfolding update_software_record
  record-IsConsistent name d =
      search (preserves_rules, update_row-IsConsistent, all_executables-IsConsistent)

  move_folder-IsConsistent :
      (name : String) (d : PartialSoftware)
      → Preserves IsConsistent (move_folder out directory owner name d)
  unfolding move_folder
  move_folder-IsConsistent name d = search (preserves_rules, perform-IsConsistent)

  reinstall-IsConsistent :
      (name : String) (r : SoftwareInDb)
      → Preserves IsConsistent (reinstall_software out directory owner name r)
  unfolding reinstall_software
  reinstall-IsConsistent name r =
      search
        (preserves_rules, perform-IsConsistent, get_software-IsConsistent, run_install-IsConsistent)

  update_software-IsConsistent :
      (name : String) (d : PartialSoftware) (reinstall : Bool)
      → Preserves IsConsistent (update_software out directory owner name d reinstall)
  unfolding update_software
  update_software-IsConsistent name d reinstall = search (
    preserves_rules, record-IsConsistent, get_software-IsConsistent, move_folder-IsConsistent,
    reinstall-IsConsistent,
  )

module _ (out : Outside) (directory : String) where
  step-IsConsistent : {s t : Store} → Step out directory s t → IsConsistent s → IsConsistent t
  step-IsConsistent (installs owner x) h = (installing-IsConsistent out directory owner x).after _ h
  step-IsConsistent (updates owner name d r) h =
      (update_software-IsConsistent out directory owner name d r).after _ h
  step-IsConsistent (deletes owner name e) h =
      (delete_executable-IsConsistent out directory owner name e).after _ h
  step-IsConsistent (renames owner name e new) h =
      (rename_executable-IsConsistent out directory owner name e new).after _ h
  step-IsConsistent (uninstalls is_open owner name) h =
      (uninstall-IsConsistent out directory owner is_open name).after _ h

  -- However many methods are called, by whichever add-ons, and whatever the downloads, copies and
  -- deletions do: from consistent tables they lead to consistent tables, where no two pieces of
  -- software have one id, or one name and owner, and no two executables one id, or one name and
  -- software.
  pub Steps-IsConsistent : {s t : Store} → IsConsistent s → Steps out directory s t → IsConsistent t
  Steps-IsConsistent h done = h
  Steps-IsConsistent h (then before last) = step-IsConsistent last (Steps-IsConsistent h before)
