-- ===== src/Legacy/Copier/Lists.antt =====
-- The arrays that packages/@twokeys/legacy-server/src/util/copy-contents-class.ts fills, and those of
-- packages/@twokeys/addons/src/util/copy-contents.ts.
use keys.Prelude.{List, [], ◌∷◌, ◌++◌, ◌≡◌, refl, sym, ap, ◌∙◌, append_assoc, append-nil, snoc}
use keys.Copier.{
  Segments, plain, folder, Folder, done, entry, FileTreeNode, FileTree, file, dir, end, node,
  generate_file_tree, get_dirs_from_tree, get_files_from_tree,
}
use keys.Legacy.Copier.{push, generate, push_each, collect_dirs, collect_files}

join : FileTree → FileTree → FileTree
join end t = t
join (node n rest) t = node n (join rest t)

join-end : (t : FileTree) → join t end ≡ t
unfolding join
join-end end = refl
join-end (node n rest) = ap (node n) (join-end rest)

join-push : (t u : FileTree) (n : FileTreeNode) → join (push t n) u ≡ join t (node n u)
unfolding join push
join-push end u n = refl
join-push (node m rest) u n = ap (node m) (join-push rest u n)

generate-join :
    (root : Segments) (c : Folder) (files : FileTree)
    → generate root c files ≡ join files (generate_file_tree root c)
unfolding generate generate_file_tree join
generate-join root done files = sym (join-end files)
generate-join root (entry name (plain text) rest) files =
    generate-join root rest _ ∙ join-push files (generate_file_tree root rest) _
generate-join root (entry name (folder contents) rest) files =
    generate-join root rest _
    ∙ join-push files (generate_file_tree root rest) _
    ∙ ap (λ t. join files (node (dir (snoc root name) t) (generate_file_tree root rest)))
        (generate-join (snoc root name) contents end)

push_each-append : (xs ys : List Segments) → push_each xs ys ≡ xs ++ ys
unfolding push_each
push_each-append xs [] = sym (append-nil xs)
push_each-append xs (y ∷ ys) = push_each-append (snoc xs y) ys ∙ append_assoc xs (y ∷ []) ys

collect_dirs-append :
    (t : FileTree) (ds : List Segments) → collect_dirs t ds ≡ ds ++ get_dirs_from_tree t
unfolding collect_dirs get_dirs_from_tree
collect_dirs-append end ds = sym (append-nil ds)
collect_dirs-append (node (file p) rest) ds = collect_dirs-append rest ds
collect_dirs-append (node (dir p c) rest) ds =
    collect_dirs-append rest _
    ∙ rw
        (
          push_each-append (snoc ds p) (collect_dirs c []),
          collect_dirs-append c [],
          append_assoc (snoc ds p) (get_dirs_from_tree c) (get_dirs_from_tree rest),
          append_assoc ds (p ∷ []) (get_dirs_from_tree c ++ get_dirs_from_tree rest),
        )
        refl

collect_files-append :
    (t : FileTree) (fs : List Segments) → collect_files t fs ≡ fs ++ get_files_from_tree t
unfolding collect_files get_files_from_tree
collect_files-append end fs = sym (append-nil fs)
collect_files-append (node (file p) rest) fs =
    collect_files-append rest _ ∙ append_assoc fs (p ∷ []) (get_files_from_tree rest)
collect_files-append (node (dir p c) rest) fs =
    collect_files-append rest _
    ∙ rw
        (
          push_each-append fs (collect_files c []),
          collect_files-append c [],
          append_assoc fs (get_files_from_tree c) (get_files_from_tree rest),
        )
        refl

pub generate-end : (root : Segments) (c : Folder) → generate root c end ≡ generate_file_tree root c
unfolding join
generate-end root c = generate-join root c end

-- The old copier and that of the add-on library list the same folders and the same files, each in
-- the same order, whatever is in the root.
pub lists_agree :
    (root : Segments) (c : Folder)
    → (collect_dirs (generate root c end) [] ≡ get_dirs_from_tree (generate_file_tree root c))
      × (collect_files (generate root c end) [] ≡ get_files_from_tree (generate_file_tree root c))
lists_agree root c = (
  collect_dirs-append _ [] ∙ ap get_dirs_from_tree (generate-end root c),
  collect_files-append _ [] ∙ ap get_files_from_tree (generate-end root c),
)
