-- ===== src/Software/Provider.antt =====
-- packages/@twokeys/addons/src/software-query-provider.ts: the queries and deletions for any add-on.
use keys.Prelude.{
  Bool, true, false, Option, none, some, List, String, ◌==◌, ◌||◌, ◌&&◌, keep, map, Exec, ok, reads,
  modify, throw, ◌>>◌, if◌then◌else◌,
}
use keys.Software.{
  SoftwareInDb, ExecutableInDb, SoftwareDirectlyFromDb, ExecutableDirectlyFromDb, from_sql, Store,
  Thrown, foreign,
}
use keys.Software.Tables.{owned, part_of, part_of_found, id_of, delete_where}

-- On an object whose database is open or not: the method does not open it, unlike the others, so that
-- `this.db.run` is a TypeError where none has been called before. "Then delete the software": the
-- number of rows deleted is `changes`.
unfoldable pub uninstall_software : Bool → String → String → Exec Thrown Store Unit
uninstall_software false name owner = throw foreign
uninstall_software true name owner =
    modify (λ s. record s {
      executables = delete_where (part_of_found (id_of name owner s.softwares)) s.executables;
    })
    >> modify (λ s. record s { softwares = delete_where (owned name owner) s.softwares })

-- The query that the names select; `none` is `null`, and "*" any.
unfoldable pub selected_by : Option String → String → SoftwareDirectlyFromDb → Bool
selected_by none owner row = if owner == "*" then false else row.owner_name == owner
selected_by (some name) owner row =
    if owner == "*"
    then (if name == "*" then true else row.name == name)
    else (if name == "*" || name == "" then row.owner_name == owner else owned name owner row)

unfoldable pub parse_executable : ExecutableDirectlyFromDb → ExecutableInDb
parse_executable row = record {
  id = row.id;
  name = row.name;
  path = row.path;
  arch = row.arch;
  os = row.os;
  user_installed = from_sql row.user_installed;
  software_id = row.software_id;
}

unfoldable pub parse_software :
    List ExecutableDirectlyFromDb → SoftwareDirectlyFromDb → SoftwareInDb
parse_software executables row = record {
  base = record {
    name = row.name;
    url = row.url;
    homepage = row.homepage;
    download_type = row.download_type;
    filename = none;
  };
  id = row.id;
  owner_name = row.owner_name;
  executables = map parse_executable (keep (part_of row.id) executables);
  installed = from_sql row.installed;
  no_auto_install = from_sql row.no_auto_install;
}

unfoldable pub softwares_of : Option String → String → Store → List SoftwareInDb
softwares_of name owner s =
    map (parse_software s.executables) (keep (selected_by name owner) s.softwares)

unfoldable pub get_softwares : Option String → String → Exec Thrown Store (List SoftwareInDb)
get_softwares name owner = reads λ s. ok (softwares_of name owner s)

abbrev pub name_selects : Option String → ExecutableDirectlyFromDb → Bool
name_selects none row = true
name_selects (some name) row = if name == "" then true else row.name == name

-- The rows as they are: `userInstalled` stays an SQLBool.
unfoldable pub get_executables :
    String → Option String → String → Exec Thrown Store (List ExecutableDirectlyFromDb)
get_executables software name owner = reads λ s. ok (
    keep (λ row. name_selects name row && part_of_found (id_of software owner s.softwares) row)
      s.executables)

module _ (join : String → String → String) (directory : String) where
  abbrev pub get_software_folder_root : String → String
  get_software_folder_root owner = join (join directory "software") owner

  abbrev pub get_one_software_folder : String → String → String
  get_one_software_folder software owner = join (get_software_folder_root owner) software
