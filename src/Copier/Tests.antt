-- ===== src/Copier/Tests.antt =====
-- ContentCopier of packages/@twokeys/addons/src/util/copy-contents.ts on sample folders.
use keys.Prelude.{true, false, [], ◌∷◌, ◌++◌, ◌≡◌, refl, map, ok, throws}
use keys.Copier.{
  Segments, plain, folder, Folder, done, entry, generate_file_tree, get_dirs_from_tree,
  get_files_from_tree, same, enoent, Disk, is_folder, Streams, target, copy_contents,
}
use keys.Copier.Laws.{IsReliable, copy_contents_lem, copy_contents-flat}

abbrev working : Streams
working = record { makes = λ p. ok tt; writes = λ p q. ok tt }

abbrev source_root : Segments
source_root = "old" ∷ []

abbrev new_root : Segments
new_root = "new" ∷ []

abbrev nested : Folder
nested = entry "lib" (folder (entry "a.dll" (plain "x") done)) (entry "a.exe" (plain "y") done)

abbrev one_file : Folder
one_file = entry "a.exe" (plain "y") done

abbrev prepared : Disk
prepared = record { folders = new_root ∷ []; written = [] }

abbrev blank : Disk
blank = record { folders = [] ∷ []; written = [] }

working-IsReliable : IsReliable working source_root new_root
working-IsReliable = (λ p. refl, λ p q. refl)

prepared_folder : is_folder new_root prepared.folders ≡ true
unfolding same
prepared_folder = refl

blank_folder : is_folder new_root blank.folders ≡ false
unfolding same
blank_folder = refl

copy_contents_lem_example :
    ((copy_contents working source_root new_root (ok nested) prepared).0 ≡ ok tt)
    × ((copy_contents working source_root new_root (ok nested) prepared).1.written
        ≡ []
          ++ map
              (target working source_root new_root)
              (get_files_from_tree (generate_file_tree source_root nested)))
copy_contents_lem_example =
    copy_contents_lem working source_root new_root working-IsReliable nested prepared
      prepared_folder

no_folders : get_dirs_from_tree (generate_file_tree source_root one_file) ≡ []
unfolding get_dirs_from_tree generate_file_tree
no_folders = refl

the_file :
    get_files_from_tree (generate_file_tree source_root one_file) ≡ ("old" ∷ "a.exe" ∷ []) ∷ []
unfolding get_files_from_tree generate_file_tree
the_file = refl

copy_contents-flat_example :
    copy_contents working source_root new_root (ok one_file) blank
    ≡ (throws (enoent (target working source_root new_root ("old" ∷ "a.exe" ∷ []))), blank)
copy_contents-flat_example =
    copy_contents-flat working source_root new_root one_file blank ("old" ∷ "a.exe" ∷ []) []
      no_folders the_file blank_folder
