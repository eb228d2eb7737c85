-- ===== src/Legacy/Copier/Tests.antt =====
-- ContentCopier of packages/@twokeys/legacy-server/src/util/copy-contents-class.ts on sample folders.
use keys.Prelude.{true, false, [], ◌∷◌, ◌++◌, ◌≡◌, refl, map, all, ok}
use keys.Copier.{
  Segments, plain, folder, Folder, done, entry, generate_file_tree, get_dirs_from_tree,
  get_files_from_tree, same, parent, relative, prefixes, Disk, is_folder, Streams, copy_contents,
}
use keys.Copier.Laws.{IsReliable, is_ready, with_folder}
use keys.Legacy.Copier.{finished, next_file, making, returned, Copy, is_last, run, start}
use keys.Legacy.Copier.Schedules.{is_settled, settled_by_last, never_settles}
use keys.Legacy.Copier.Runs.{all_files, copied_in_order}

abbrev reliable_streams : Streams
reliable_streams = record { makes = λ p. ok tt; writes = λ p q. ok tt }

abbrev old_root : Segments
old_root = "old" ∷ []

abbrev next_root : Segments
next_root = "new" ∷ []

abbrev two_folders : Folder
two_folders = entry "a" (folder (entry "f" (plain "x") done)) (entry "b" (folder done) done)

abbrev only_file : Folder
only_file = entry "f" (plain "x") done

abbrev folder_a : Segments
folder_a = "old" ∷ "a" ∷ []

abbrev folder_b : Segments
folder_b = "old" ∷ "b" ∷ []

abbrev file_f : Segments
file_f = "old" ∷ "a" ∷ "f" ∷ []

abbrev with_new : Disk
with_new = record { folders = next_root ∷ []; written = [] }

abbrev waiting_two : Copy
waiting_two = record {
  dirs = folder_a ∷ folder_b ∷ [];
  files = [];
  phase = making;
  disk = with_new;
}

reliable_streams-IsReliable : IsReliable reliable_streams old_root next_root
reliable_streams-IsReliable = (λ p. refl, λ p q. refl)

the_dirs : get_dirs_from_tree (generate_file_tree old_root two_folders) ≡ folder_a ∷ folder_b ∷ []
unfolding get_dirs_from_tree generate_file_tree
the_dirs = refl

b_last : is_last (get_dirs_from_tree (generate_file_tree old_root two_folders)) folder_b ≡ true
unfolding is_last same get_dirs_from_tree generate_file_tree
b_last = refl

a_asked :
    all
      (λ p. is_folder p (get_dirs_from_tree (generate_file_tree old_root two_folders)))
      (folder_a ∷ [])
    ≡ true
unfolding same get_dirs_from_tree generate_file_tree
a_asked = refl

both_ended :
    all
      (λ p. is_folder p (folder_b ∷ folder_a ∷ []))
      (get_dirs_from_tree (generate_file_tree old_root two_folders))
    ≡ true
unfolding same get_dirs_from_tree generate_file_tree
both_ended = refl

new_exists : is_folder next_root with_new.folders ≡ true
unfolding same
new_exists = refl

waiting_last : is_last (folder_a ∷ folder_b ∷ []) folder_b ≡ true
unfolding is_last same
waiting_last = refl

settled_by_last_example :
    is_settled
      (run reliable_streams old_root next_root
        (finished folder_a ∷ [] ++ finished folder_b ∷ next_file ∷ [])
        waiting_two).phase
    ≡ true
settled_by_last_example =
    settled_by_last reliable_streams old_root next_root waiting_two (finished folder_a ∷ [])
      (next_file ∷ []) folder_b waiting_last

no_dirs : get_dirs_from_tree (generate_file_tree old_root only_file) ≡ []
unfolding get_dirs_from_tree generate_file_tree
no_dirs = refl

never_settles_example :
    run reliable_streams old_root next_root
      (next_file ∷ finished old_root ∷ [])
      (start reliable_streams old_root next_root only_file with_new)
    ≡ start reliable_streams old_root next_root only_file with_new
never_settles_example =
    never_settles reliable_streams old_root next_root only_file with_new
      (next_file ∷ finished old_root ∷ []) no_dirs

copied_in_order_example :
    ((run reliable_streams old_root next_root
        (map finished (folder_a ∷ [])
          ++ finished folder_b
            ∷ all_files (get_files_from_tree (generate_file_tree old_root two_folders)))
        (start reliable_streams old_root next_root two_folders with_new)).phase
      ≡ returned)
    × ((copy_contents reliable_streams old_root next_root (ok two_folders) with_new).0 ≡ ok tt)
    × ((run reliable_streams old_root next_root
          (map finished (folder_a ∷ [])
            ++ finished folder_b
              ∷ all_files (get_files_from_tree (generate_file_tree old_root two_folders)))
          (start reliable_streams old_root next_root two_folders with_new)).disk.written
        ≡ (copy_contents reliable_streams old_root next_root (ok two_folders) with_new).1.written)
copied_in_order_example =
    copied_in_order reliable_streams old_root next_root reliable_streams-IsReliable two_folders
      with_new (folder_a ∷ []) folder_b b_last a_asked both_ended new_exists

a_file : get_files_from_tree (generate_file_tree old_root two_folders) ≡ file_f ∷ []
unfolding get_files_from_tree generate_file_tree
a_file = refl

a_missing :
    is_ready reliable_streams old_root next_root
      (with_folder reliable_streams old_root next_root folder_b with_new).folders
      file_f
    ≡ false
unfolding same parent relative prefixes
a_missing = refl
