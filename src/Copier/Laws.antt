-- ===== src/Copier/Laws.antt =====
-- What ContentCopier of packages/@twokeys/addons/src/util/copy-contents.ts copies, and when it fails.
use keys.Prelude.{
  Bool, true, false, List, [], ◌∷◌, ◌++◌, String, ◌≡◌, refl, sym, ap, subst, ◌∙◌, all, map, snoc,
  any-append, append_assoc, append-nil, Result, ok, throws, pure_lem, bind-after, ◌>>=◌, ◌>>◌,
  arith,
}
use keys.Copier.{
  Segments, plain, folder, Folder, done, entry, generate_file_tree, get_dirs_from_tree,
  get_files_from_tree, same, parent, prefixes, Thrown, enoent, Disk, is_folder, Streams, target,
  made, mkdirs, copy_file, copy_files, copy_contents,
}
use keys.Copier.Trees.{relative-append, parent-snoc, made_itself, halves, both, all-append, or_true}

module _ (streams : Streams) (root destination : Segments) where
  abbrev pub to : Segments → Segments
  to = target streams root destination

  target-below : (ns : Segments) → to (root ++ ns) ≡ destination ++ ns
  target-below ns = rw (relative-append root ns)

  -- The file can be opened.
  abbrev pub is_ready : List Segments → Segments → Bool
  is_ready folders f = is_folder (parent (to f)) folders

  abbrev pub is_made : List Segments → Segments → Bool
  is_made folders d = is_folder (to d) folders

  parent-target : (ns : Segments) (n : String) → parent (to (snoc (root ++ ns) n)) ≡ to (root ++ ns)
  parent-target ns n =
      ap parent (
        ap to (append_assoc root ns (n ∷ []))
        ∙ target-below (snoc ns n)
        ∙ sym (append_assoc destination ns (n ∷ [])))
      ∙ parent-snoc (destination ++ ns) n
      ∙ sym (target-below ns)

  below : (p ns : Segments) (n : String) → p ≡ root ++ ns → snoc p n ≡ root ++ snoc ns n
  below p ns n q = ap (λ r. snoc r n) q ∙ append_assoc root ns (n ∷ [])

  file_ready :
      (folders : List Segments) (p ns : Segments) (n : String)
      → p ≡ root ++ ns
      → is_made folders p ≡ true
      → is_ready folders (snoc p n) ≡ true
  file_ready folders p ns n q h =
      ap (λ r. is_folder r folders)
        (ap (λ r. parent (to (snoc r n))) q ∙ parent-target ns n ∙ ap to (sym q))
      ∙ h

  -- Where the folders of a tree are made, its files can be opened.
  pub files_ready :
      (folders : List Segments) (p ns : Segments) (c : Folder)
      → p ≡ root ++ ns
      → is_made folders p ≡ true
      → all (is_made folders) (get_dirs_from_tree (generate_file_tree p c)) ≡ true
      → all (is_ready folders) (get_files_from_tree (generate_file_tree p c)) ≡ true
  unfolding generate_file_tree get_dirs_from_tree get_files_from_tree
  files_ready folders p ns done q h ds = refl
  files_ready folders p ns (entry name (plain text) rest) q h ds =
      rw (file_ready folders p ns name q h) (files_ready folders p ns rest q h ds)
  files_ready folders p ns (entry name (folder contents) rest) q h ds =
      let tree = generate_file_tree (snoc p name) contents in
      let later = generate_file_tree p rest in
      let (here, others) = halves _ _ ds in
      let (inside, after) = halves _ _ (
        sym (all-append (is_made folders) (get_dirs_from_tree tree) (get_dirs_from_tree later))
        ∙ others) in
      all-append (is_ready folders) (get_files_from_tree tree) (get_files_from_tree later)
      ∙ both
          (files_ready folders (snoc p name) (snoc ns name) contents (below p ns name q) here
            inside)
          (files_ready folders p ns rest q h after)

  -- Making folders leaves those that there are.
  pub made-grows :
      (p q : Segments) (r : Result Thrown (Unit {0})) (d : Disk)
      → is_folder q d.folders ≡ true
      → is_folder q (made streams root destination p r d).folders ≡ true
  made-grows p q (throws e) d h = h
  made-grows p q (ok x) d h = rw (any-append, h) (or_true (is_folder q (prefixes p)))

  mkdirs-grows :
      (ps : List Segments) (q : Segments) (d : Disk)
      → is_folder q d.folders ≡ true
      → is_folder q (mkdirs streams root destination ps d).1.folders ≡ true
  unfolding mkdirs
  mkdirs-grows [] q d h = h
  mkdirs-grows (p ∷ ps) q d h = mkdirs-grows ps q _ (made-grows (to p) q (streams.makes (to p)) d h)

  -- Nothing fails but what the copier itself does.
  abbrev pub IsReliable : Type 0
  IsReliable =
      ((p : Segments) → streams.makes p ≡ ok tt) × ((p q : Segments) → streams.writes p q ≡ ok tt)

  mkdirs_none :
      (d : Disk)
      → ((mkdirs streams root destination [] d).0 ≡ ok tt)
        × (true ≡ true)
        × ((mkdirs streams root destination [] d).1.written ≡ d.written)
  unfolding mkdirs
  mkdirs_none d = (refl, refl, refl)

  abbrev pub with_folder : Segments → Disk → Disk
  with_folder p d = record d { folders = prefixes (to p) ++ d.folders }

  mkdirs-step :
      (p : Segments) (ps : List Segments) (d : Disk)
      → streams.makes (to p) ≡ ok tt
      → mkdirs streams root destination (p ∷ ps) d
        ≡ mkdirs streams root destination ps (with_folder p d)
  unfolding mkdirs
  mkdirs-step p ps d e =
      ap
        (λ r.
          let later =
            mkdirs streams root destination ps (made streams root destination (to p) r d) in
          (elim r [ ok _ ↦ later.0 | throws x ↦ throws x ], later.1))
        e

  pub with_folder_lem :
      (p : Segments) (d : Disk) → is_folder (to p) (with_folder p d).folders ≡ true
  with_folder_lem p d =
      any-append (same (to p)) (prefixes (to p)) d.folders ∙ rw (made_itself (to p))

  mkdirs_lem :
      IsReliable
      → (ps : List Segments) (d : Disk)
      → ((mkdirs streams root destination ps d).0 ≡ ok tt)
        × (all (is_made (mkdirs streams root destination ps d).1.folders) ps ≡ true)
        × ((mkdirs streams root destination ps d).1.written ≡ d.written)
  mkdirs_lem reliable [] d = mkdirs_none d
  mkdirs_lem reliable (p ∷ ps) d =
      let (r, m, w) = mkdirs_lem reliable ps (with_folder p d) in
      subst
        (λ u.
          (u.0 ≡ ok tt) × (all (is_made u.1.folders) (p ∷ ps) ≡ true) × (u.1.written ≡ d.written))
        (sym (mkdirs-step p ps d (reliable.0 (to p))))
        (r, both (mkdirs-grows ps (to p) (with_folder p d) (with_folder_lem p d)) m, w)

  unfoldable pub copied : Segments → Disk → Disk
  copied f d = record d { written = snoc d.written (to f) }

  pub copy_file_lem :
      IsReliable
      → (f : Segments) (d : Disk) → is_ready d.folders f ≡ true
      → copy_file streams root destination f d ≡ (ok tt, copied f d)
  unfolding copy_file copied
  copy_file_lem reliable f d h = rw (h, reliable.1 f (to f))

  copy_files_lem :
      IsReliable
      → (fs : List Segments) (d : Disk) → all (is_ready d.folders) fs ≡ true
      → copy_files streams root destination fs d
        ≡ (ok tt, record d { written = d.written ++ map to fs })
  unfolding copy_files copied
  copy_files_lem reliable [] d h =
      pure_lem tt d ∙ ap (λ w. (ok tt, record d { written = w })) (sym (append-nil d.written))
  copy_files_lem reliable (f ∷ fs) d h =
      let (now, later) = halves _ _ h in
      let e = copy_file_lem reliable f d now in
      bind-after (copy_file streams root destination f)
        (λ _. copy_files streams root destination fs) d (ap (λ u. u.0) e)
      ∙ ap (λ u. copy_files streams root destination fs u.1) e
      ∙ copy_files_lem reliable fs (copied f d) later
      ∙ ap (λ w. (ok tt, record d { written = w })) (append_assoc d.written (to f ∷ []) (map to fs))

  pub root-target : to root ≡ destination
  root-target = ap to (sym (append-nil root)) ∙ target-below [] ∙ append-nil destination

  -- Where folders and streams do not fail and the destination is a folder that exists, the copy
  -- returns, and what it has written are the files of the tree, in order, each at its place below the
  -- destination.
  pub copy_contents_lem :
      IsReliable
      → (contents : Folder) (d : Disk) → is_folder destination d.folders ≡ true
      → ((copy_contents streams root destination (ok contents) d).0 ≡ ok tt)
        × ((copy_contents streams root destination (ok contents) d).1.written
            ≡ d.written ++ map to (get_files_from_tree (generate_file_tree root contents)))
  unfolding copy_contents
  copy_contents_lem reliable contents d h =
      let dirs = get_dirs_from_tree (generate_file_tree root contents) in
      let files = get_files_from_tree (generate_file_tree root contents) in
      let t = (mkdirs streams root destination dirs d).1 in
      let (r, m, w) = mkdirs_lem reliable dirs d in
      let start = ap (λ q. is_folder q t.folders) root-target ∙ mkdirs-grows dirs destination d h in
      let ready = files_ready t.folders root [] contents (sym (append-nil root)) start m in
      let all_copied = copy_files_lem reliable files t ready in
      rw
        (
          bind-after (mkdirs streams root destination dirs)
              (λ _. copy_files streams root destination files) d r,
          all_copied,
          w,
        )
        (refl, refl)

  flat :
      (contents : Folder) (f : Segments) (fs : List Segments)
      → get_dirs_from_tree (generate_file_tree root contents) ≡ []
      → get_files_from_tree (generate_file_tree root contents) ≡ f ∷ fs
      → (n : String) × (f ≡ snoc root n)
  unfolding generate_file_tree get_dirs_from_tree get_files_from_tree
  flat done f fs ds q = absurd (ground (arith, q))
  flat (entry name (plain text) rest) f fs ds q = (name, ground (arith, q))
  flat (entry name (folder contents) rest) f fs ds q = absurd (ground (arith, ds))

  in_destination : (n : String) → parent (to (snoc root n)) ≡ destination
  in_destination n = ap parent (target-below (n ∷ [])) ∙ parent-snoc destination n

  first_fails :
      (f : Segments) (fs : List Segments) (d : Disk)
      → is_ready d.folders f ≡ false
      → (mkdirs streams root destination [] >> copy_files streams root destination (f ∷ fs)) d
        ≡ (throws (enoent (to f)), d)
  unfolding mkdirs copy_files copy_file ◌>>=◌
  first_fails f fs d h = rw h

  -- Where the destination does not exist and no folder lies in the root, the copy of one file or
  -- more fails with ENOENT at the first file and changes nothing: the destination is not made.
  pub copy_contents-flat :
      (contents : Folder) (d : Disk) (f : Segments) (fs : List Segments)
      → get_dirs_from_tree (generate_file_tree root contents) ≡ []
      → get_files_from_tree (generate_file_tree root contents) ≡ f ∷ fs
      → is_folder destination d.folders ≡ false
      → copy_contents streams root destination (ok contents) d ≡ (throws (enoent (to f)), d)
  unfolding copy_contents
  copy_contents-flat contents d f fs ds q h =
      let (n, e) = flat contents f fs ds q in
      let files = get_files_from_tree (generate_file_tree root contents) in
      let closed =
        ap (λ p. is_folder p d.folders) (ap (λ p. parent (to p)) e ∙ in_destination n) ∙ h in
      ap (λ l. (mkdirs streams root destination l >> copy_files streams root destination files) d)
        ds
      ∙ ap (λ l. (mkdirs streams root destination [] >> copy_files streams root destination l) d) q
      ∙ first_fails f fs d closed
