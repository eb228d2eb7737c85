-- ===== src/Software/Tests.antt =====
-- The software registry of packages/@twokeys/addons/src/software.ts on sample stores.
use Prim.Native.String.{◌++◌ as append}
use keys.Prelude.{
  ℕ, zero, suc, true, false, none, some, [], ◌∷◌, String, ◌≡◌, refl, ◌==◌, any, ok, throws, ◌>>=◌,
  ◌>>◌,
}
use keys.Software.{
  Store, foreign, ExecutableDirectlyFromDb, constraint, executables, Outside, Software,
  SoftwareDirectlyFromDb, Executable, BaseSoftware, standalone, sql_false, copy, remove,
}
use keys.Software.Tables.{distinct, insert, update_where, id_of, part_of}
use keys.Software.Provider.{uninstall_software, get_softwares, softwares_of, selected_by}
use keys.Software.Methods.{
  install_software, run_install, get_software, run_all, register, uuidv4, insert_software,
  folder_of, insert_executable, add_executable, fetch, mark_installed,
}
use keys.Software.Consistency.{IsConsistent}
use keys.Software.Installs.{is_missing, run_install-all_owners}
use keys.Software.Lookups.{installed_software, get-install}
use keys.Software.Removal.{get-uninstall}
use keys.Software.Updating.{
  PartialSoftware, update_software, update_software_record, update_row, update_executables,
  move_folder,
}
use keys.Software.Moving.{update_software-stale_paths}
use keys.Software.Rollback.{roll_back-orphans}

abbrev next_id : ℕ → String
next_id zero = "a"
next_id (suc zero) = "b"
next_id _ = "c"

abbrev sample_system : Outside
sample_system = record {
  uuid = next_id;
  join = λ a b. a;
  basename = λ a. a;
  platform = "linux";
  attempt = λ before e. ok tt;
}

abbrev ahk : BaseSoftware
ahk = record {
  name = "ahk";
  url = "u";
  homepage = "h";
  download_type = standalone;
  filename = none;
}

abbrev binary : Executable
binary = record { name = "bin"; path = "./"; arch = "x64"; os = none; user_installed = none }

abbrev by_hand : Software
by_hand = record { base = ahk; no_auto_install = some true; executables = binary ∷ [] }

abbrev twice : Software
twice = record { base = ahk; no_auto_install = none; executables = binary ∷ binary ∷ [] }

abbrev row_of : String → String → SoftwareDirectlyFromDb
row_of id owner = record {
  id = id;
  name = "ahk";
  url = "u";
  homepage = "h";
  owner_name = owner;
  installed = sql_false;
  download_type = standalone;
  no_auto_install = sql_false;
}

-- Software of one name that two add-ons have.
abbrev shared_name : Store
shared_name = record {
  softwares = row_of "x" "one" ∷ row_of "y" "two" ∷ [];
  executables = [];
  effects = [];
  generated = 0;
}

abbrev empty_store : Store
empty_store = record { softwares = []; executables = []; effects = []; generated = 0 }

shared_name-IsConsistent : IsConsistent shared_name
unfolding distinct
shared_name-IsConsistent = (refl, refl)

empty_store-IsConsistent : IsConsistent empty_store
unfolding distinct
empty_store-IsConsistent = (refl, refl)

downloaded : (run_install sample_system "d" "one" ahk false shared_name).0 ≡ ok tt
unfolding run_install fetch mark_installed update_where distinct ◌>>=◌
downloaded = refl

run_install-all_owners_example :
    any (is_missing "ahk") (run_install sample_system "d" "one" ahk false shared_name).1.softwares
    ≡ false
run_install-all_owners_example =
    run_install-all_owners sample_system "d" "one" ahk shared_name shared_name-IsConsistent refl
      downloaded

added_by_hand : (install_software sample_system "d" "one" by_hand empty_store).0 ≡ ok tt
unfolding install_software register run_all uuidv4 insert_software insert_executable add_executable
    run_install insert ◌>>=◌
added_by_hand = refl

get-install_example :
    ((install_software sample_system "d" "one" by_hand
        >> get_software sample_system "d" "one" "ahk")
      empty_store).0
    ≡ ok (installed_software sample_system "d" "one" by_hand empty_store)
get-install_example =
    get-install sample_system "d" "one" by_hand empty_store refl refl refl refl added_by_hand

abbrev executable_of : String → String → String → ExecutableDirectlyFromDb
executable_of id path software_id = record {
  id = id;
  name = "bin";
  path = path;
  arch = some "x64";
  os = "linux";
  user_installed = sql_false;
  software_id = software_id;
}

-- The software of both owners, each with an executable in its folder.
abbrev both_listed : Store
both_listed = record shared_name {
  executables = executable_of "1" "d/one/ahk/bin" "x" ∷ executable_of "2" "d/two/ahk/bin" "y" ∷ [];
}

both_listed-IsConsistent : IsConsistent both_listed
unfolding distinct
both_listed-IsConsistent = (refl, refl)

listed_id : id_of "ahk" "one" both_listed.softwares ≡ some "x"
unfolding id_of
listed_id = refl

get-uninstall_example :
    (id_of "ahk" "one" (uninstall_software true "ahk" "one" both_listed).1.softwares ≡ none)
    × (any (part_of "x") (uninstall_software true "ahk" "one" both_listed).1.executables ≡ false)
    × (((uninstall_software true "ahk" "one" >> get_softwares (some "ahk") "two") both_listed).0
        ≡ (get_softwares (some "ahk") "two" both_listed).0)
    × (uninstall_software false "ahk" "one" both_listed ≡ (throws foreign, both_listed))
get-uninstall_example =
    get-uninstall "ahk" "one" "ahk" "two" "x" both_listed both_listed-IsConsistent refl refl
      listed_id refl

refused_twice :
    (register sample_system "d" "one" twice empty_store).0 ≡ throws (constraint executables)
unfolding register run_all uuidv4 insert_software insert_executable add_executable insert ◌>>=◌
refused_twice = refl

roll_back-orphans_example :
    (any (λ q. q.id == "a") (install_software sample_system "d" "one" twice empty_store).1.softwares
      ≡ false)
    × (any (part_of "a") (install_software sample_system "d" "one" twice empty_store).1.executables
        ≡ true)
roll_back-orphans_example =
    roll_back-orphans sample_system "d" "one" twice empty_store binary (binary ∷ []) refl
      refused_twice refl

abbrev new_name : PartialSoftware
new_name = record {
  name = some "ahk2";
  url = none;
  homepage = none;
  download_type = none;
  no_auto_install = none;
  executables = none;
}

abbrev path_system : Outside
path_system = record sample_system { join = λ a b. append a (append "/" b) }

renamed : (update_software path_system "d" "one" "ahk" new_name false both_listed).0 ≡ ok tt
unfolding update_software update_software_record update_row update_executables get_software
    get_softwares softwares_of selected_by move_folder update_where distinct id_of run_all ◌>>=◌
renamed = refl

update_software-stale_paths_example :
    ((update_software path_system "d" "one" "ahk" new_name false both_listed).1.executables
      ≡ both_listed.executables)
    × ((update_software path_system "d" "one" "ahk" new_name false both_listed).1.effects
        ≡ copy (folder_of path_system "d" "one" "ahk") (folder_of path_system "d" "one" "ahk2")
          ∷ remove (folder_of path_system "d" "one" "ahk")
          ∷ [])
update_software-stale_paths_example =
    update_software-stale_paths path_system "d" "one" "ahk" new_name both_listed refl refl renamed
