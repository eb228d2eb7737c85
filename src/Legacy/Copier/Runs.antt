-- ===== src/Legacy/Copier/Runs.antt =====
-- What ContentCopier of packages/@twokeys/legacy-server/src/util/copy-contents-class.ts has written
-- when it returns.
use keys.Prelude.{
  Bool, true, false, List, [], ◌∷◌, ◌++◌, ◌≡◌, refl, sym, ap, ◌∙◌, subst, eq_iff, all, map,
  append_assoc, append-nil, ok, arith, inl, inr, Bool-cases, ◌⊎◌,
}
use keys.Copier.{
  Segments, Folder, enoent, Disk, is_folder, Streams, target, same, copy_file, get_dirs_from_tree,
  get_files_from_tree, generate_file_tree, copy_contents,
}
use keys.Copier.Trees.{halves}
use keys.Copier.Laws.{
  IsReliable, files_ready, made-grows, with_folder, with_folder_lem, copy_file_lem, copied,
  is_ready, is_made, root-target, copy_contents_lem,
}
use keys.Legacy.Copier.{
  Event, finished, next_file, Phase, making, copying, returned, failed, Copy, is_last,
  start_copying, settle, finish, after_file, copy_next, happen, run, start,
}
use keys.Legacy.Copier.Lists.{lists_agree}
use keys.Legacy.Copier.Schedules.{asked_last}

pub same_eq : (p q : Segments) → same p q ≡ true → p ≡ q
unfolding same
same_eq [] [] h = refl
same_eq [] (b ∷ bs) h = absurd (ground (arith, h))
same_eq (a ∷ l) [] h = absurd (ground (arith, h))
same_eq (a ∷ l) (b ∷ bs) h = ground (arith, h, eq_iff a b, same_eq l bs)

-- The next file is copied as often as there are files.
abbrev pub all_files : List Segments → List Event
all_files [] = []
all_files (f ∷ fs) = next_file ∷ all_files fs

module _ (streams : Streams) (root destination : Segments)
    (reliable : IsReliable streams root destination) where
  abbrev exec : List Event → Copy → Copy
  exec = run streams root destination

  abbrev to : Segments → Segments
  to = target streams root destination

  abbrev Begun : Copy → Type 0
  Begun c = (c.phase ≡ making) ⊎ (c.phase ≡ start_copying c.files)

  settled-start :
      (last : Bool) (files : List Segments) (p : Phase)
      → (p ≡ making) ⊎ (p ≡ start_copying files)
      → (settle streams root destination last files (ok tt) p ≡ making)
        ⊎ (settle streams root destination last files (ok tt) p ≡ start_copying files)
  unfolding settle start_copying
  settled-start true files p (inl e) = rw e (inr refl)
  settled-start false files p (inl e) = rw e (inl refl)
  settled-start last files p (inr e) = rw e (inr (stays files))
    where
      stays :
          (fs : List Segments)
          → settle streams root destination last files (ok tt) (start_copying fs) ≡ start_copying fs
      stays [] = refl
      stays (f ∷ fs) = refl

  finish_asked :
      (p : Segments) (c : Copy)
      → is_folder p c.dirs ≡ true
      → finish streams root destination p c ≡ record c {
        phase = settle streams root destination (is_last c.dirs p) c.files (ok tt) c.phase;
        disk = with_folder streams root destination p c.disk;
      }
  unfolding finish
  finish_asked p c h = rw (h, reliable.0 (to p)) refl

  -- After the calls for `order` have ended.
  record IsAfter (c : Copy) (order : List Segments) (t : Copy) : Type 0 where
    same_dirs : t.dirs ≡ c.dirs
    same_files : t.files ≡ c.files
    going_on : Begun t
    unwritten : t.disk.written ≡ c.disk.written
    kept : (q : Segments) → is_folder q c.disk.folders ≡ true → is_folder q t.disk.folders ≡ true
    there : (q : Segments) → is_folder q order ≡ true → is_folder (to q) t.disk.folders ≡ true

  finish-IsAfter :
      (p : Segments) (c : Copy)
      → is_folder p c.dirs ≡ true
      → Begun c
      → IsAfter c (p ∷ []) (finish streams root destination p c)
  finish-IsAfter p c asked b = subst (IsAfter c (p ∷ [])) (sym (finish_asked p c asked)) (record {
    same_dirs = refl;
    same_files = refl;
    going_on = settled-start (is_last c.dirs p) c.files c.phase b;
    unwritten = refl;
    kept = λ q h. made-grows streams root destination (to p) q (ok tt) c.disk h;
    there = λ q h.
        subst (λ r. is_folder (to r) (with_folder streams root destination p c.disk).folders ≡ true)
          (sym (same_eq q p (ground (arith, h))))
          (with_folder_lem streams root destination p c.disk);
  })

  ends-IsAfter :
      (order : List Segments) (c : Copy)
      → all (λ p. is_folder p c.dirs) order ≡ true
      → Begun c
      → IsAfter c order (exec (map finished order) c)
  unfolding run happen
  ends-IsAfter [] c h b = record {
    same_dirs = refl;
    same_files = refl;
    going_on = b;
    unwritten = refl;
    kept = λ q k. k;
    there = λ q k. absurd (ground (arith, k));
  }
  ends-IsAfter (p ∷ ps) c h b =
      let (asked, others) = halves _ _ h in
      let one = finish-IsAfter p c asked b in
      let t = finish streams root destination p c in
      let rest =
        ends-IsAfter ps t (ap (λ ds. all (λ q. is_folder q ds) ps) one.same_dirs ∙ others)
          one.going_on in
      record {
        same_dirs = rest.same_dirs ∙ one.same_dirs;
        same_files = rest.same_files ∙ one.same_files;
        going_on = rest.going_on;
        unwritten = rest.unwritten ∙ one.unwritten;
        kept = λ q k. rest.kept q (one.kept q k);
        there = λ q k. elim (Bool-cases (same q p)) [
          | inl e ↦ rest.kept (to q) (one.there q (ground (arith, e)))
          | inr e ↦ rest.there q (ground (arith, e, k))
        ];
      }

  starts :
      (files : List Segments) (p : Phase)
      → (p ≡ making) ⊎ (p ≡ start_copying files)
      → settle streams root destination true files (ok tt) p ≡ start_copying files
  unfolding settle start_copying
  starts files p (inl e) = rw e refl
  starts [] p (inr e) = rw e refl
  starts (f ∷ fs) p (inr e) = rw e refl

  run-append : (es fs : List Event) (c : Copy) → exec (es ++ fs) c ≡ exec fs (exec es c)
  unfolding run
  run-append [] fs c = refl
  run-append (e ∷ es) fs c = run-append es fs (happen streams root destination e c)

  wrote_all : List Segments → Copy → Copy
  wrote_all fs c = record c {
    phase = returned;
    disk = record c.disk { written = c.disk.written ++ map to fs };
  }

  all_files_lem :
      (fs : List Segments) (c : Copy)
      → c.phase ≡ start_copying fs
      → all (is_ready streams root destination c.disk.folders) fs ≡ true
      → exec (all_files fs) c ≡ wrote_all fs c
  unfolding run happen copy_next after_file start_copying wrote_all copied
  all_files_lem [] c e h =
      ap (λ p. record c { phase = p }) e
      ∙ ap (λ w. record c { phase = returned; disk = record c.disk { written = w } })
          (sym (append-nil c.disk.written))
  all_files_lem (f ∷ fs) c e h =
      let (now, later) = halves _ _ h in
      let d = copied streams root destination f c.disk in
      ap (λ p. exec (all_files fs) (copy_next streams root destination p c)) e
      ∙ ap (λ r. exec (all_files fs) (after_file streams root destination fs r c))
          (copy_file_lem streams root destination reliable f c.disk now)
      ∙ all_files_lem fs (record c { phase = start_copying fs; disk = d }) refl later
      ∙ ap (λ w. record c { phase = returned; disk = record c.disk { written = w } })
          (append_assoc c.disk.written (to f ∷ []) (map to fs))

  all_there :
      (folders order ds : List Segments)
      → ((q : Segments) → is_folder q order ≡ true → is_folder (to q) folders ≡ true)
      → all (λ p. is_folder p order) ds ≡ true
      → all (is_made streams root destination folders) ds ≡ true
  all_there folders order [] k h = refl
  all_there folders order (d ∷ ds) k h =
      let (now, later) = halves _ _ h in rw (k d now) (all_there folders order ds k later)

  abbrev dirs_of : Folder → List Segments
  dirs_of contents = get_dirs_from_tree (generate_file_tree root contents)

  abbrev pub files_of : Folder → List Segments
  files_of contents = get_files_from_tree (generate_file_tree root contents)

  -- The calls of `mkdirp` end in `order`, and then that for `last`.
  module _ (contents : Folder) (d : Disk) (order : List Segments) (last : Segments)
      (is_end : is_last (dirs_of contents) last ≡ true)
      (asked : all (λ p. is_folder p (dirs_of contents)) order ≡ true)
      (ended : all (λ p. is_folder p (last ∷ order)) (dirs_of contents) ≡ true)
      (exists : is_folder destination d.folders ≡ true) where
    begin : Copy
    begin = start streams root destination contents d

    begin-dirs : begin.dirs ≡ dirs_of contents
    unfolding begin start
    begin-dirs = (lists_agree root contents).0

    begin-files : begin.files ≡ files_of contents
    unfolding begin start
    begin-files = (lists_agree root contents).1

    begin-disk : (begin.phase ≡ making) × (begin.disk ≡ d)
    unfolding begin start
    begin-disk = (refl, refl)

    before : Copy
    before = exec (map finished order) begin

    first : IsAfter begin order before
    unfolding before
    first =
        ends-IsAfter order begin (ap (λ ds. all (λ p. is_folder p ds) order) begin-dirs ∙ asked)
          (inl begin-disk.0)

    here : is_folder last before.dirs ≡ true
    here =
        ap (is_folder last) (first.same_dirs ∙ begin-dirs)
        ∙ asked_last streams root destination (dirs_of contents) last is_end

    ready : Copy
    ready = finish streams root destination last before

    second : IsAfter before (last ∷ []) ready
    unfolding ready
    second = finish-IsAfter last before here first.going_on

    ready-phase : ready.phase ≡ start_copying (files_of contents)
    unfolding ready
    ready-phase =
        ap (λ c. c.phase) (finish_asked last before here)
        ∙ ap (λ b. settle streams root destination b before.files (ok tt) before.phase)
            (ap (λ ds. is_last ds last) (first.same_dirs ∙ begin-dirs) ∙ is_end)
        ∙ starts before.files before.phase first.going_on
        ∙ ap start_copying (first.same_files ∙ begin-files)

    all_made :
        (q : Segments)
        → is_folder q (last ∷ order) ≡ true
        → is_folder (to q) ready.disk.folders ≡ true
    all_made q h = elim (Bool-cases (same q last)) [
      | inl e ↦ second.there q (ground (arith, e))
      | inr e ↦ second.kept (to q) (first.there q (ground (arith, e, h)))
    ]

    files_can_open :
        all (is_ready streams root destination ready.disk.folders) (files_of contents) ≡ true
    files_can_open =
        files_ready streams root destination ready.disk.folders root [] contents
          (sym (append-nil root))
          (ap (λ q. is_folder q ready.disk.folders) (root-target streams root destination)
            ∙ second.kept destination (
                first.kept destination
                  (ap (λ e. is_folder destination e.folders) begin-disk.1 ∙ exists)))
          (all_there ready.disk.folders (last ∷ order) (dirs_of contents) all_made ended)

    written_in_order :
        exec
          (map finished order ++ finished last ∷ all_files (files_of contents))
          (start streams root destination contents d)
        ≡ wrote_all (files_of contents) ready
    unfolding run happen begin before ready
    written_in_order =
        run-append (map finished order) (finished last ∷ all_files (files_of contents)) begin
        ∙ all_files_lem (files_of contents) ready ready-phase files_can_open

    -- Where folders and streams do not fail, the destination exists, and the call of `mkdirp` for the
    -- last folder of the list is the last to end of the calls for all of them, the copy returns, as
    -- that of the add-on library does, and both have written the same files in the same order.
    pub copied_in_order :
        ((exec
            (map finished order ++ finished last ∷ all_files (files_of contents))
            (start streams root destination contents d)).phase
          ≡ returned)
        × ((copy_contents streams root destination (ok contents) d).0 ≡ ok tt)
        × ((exec
              (map finished order ++ finished last ∷ all_files (files_of contents))
              (start streams root destination contents d)).disk.written
            ≡ (copy_contents streams root destination (ok contents) d).1.written)
    unfolding wrote_all
    copied_in_order =
        let (returns, written) =
          copy_contents_lem streams root destination reliable contents d exists in
        (
          ap (λ c. c.phase) written_in_order,
          returns,
          ap (λ c. c.disk.written) written_in_order
              ∙ ap (λ w. w ++ map to (files_of contents))
                  (second.unwritten ∙ first.unwritten ∙ ap (λ e'. e'.written) begin-disk.1)
              ∙ sym written,
        )

  open_early :
      (f : Segments) (fs : List Segments) (c : Copy)
      → c.phase ≡ copying (f ∷ fs)
      → is_ready streams root destination c.disk.folders f ≡ false
      → (exec (next_file ∷ []) c).phase ≡ failed (enoent (to f))
  unfolding run happen copy_next after_file copy_file
  open_early f fs c e h = simp (e, h)

  -- Where making folders does not fail, the call of `mkdirp` for the last folder of the list ends
  -- first, and the first file lies in a folder that this call does not make and that does not exist,
  -- the copy throws ENOENT at that file: it does not wait for the other calls.
  pub copied_early :
      (contents : Folder) (d : Disk) (last f : Segments) (fs : List Segments)
      → is_last (dirs_of contents) last ≡ true
      → files_of contents ≡ f ∷ fs
      → is_ready streams root destination (with_folder streams root destination last d).folders f
        ≡ false
      → (exec (finished last ∷ next_file ∷ []) (start streams root destination contents d)).phase
        ≡ failed (enoent (to f))
  unfolding run happen start start_copying
  copied_early contents d last f fs is_end listed closed =
      let c = start streams root destination contents d in
      let here = ap (λ ds. is_last ds last) (lists_agree root contents).0 ∙ is_end in
      let e = finish_asked last c (asked_last streams root destination c.dirs last here) in
      let p =
        ap (λ b. settle streams root destination b c.files (ok tt) making) here
        ∙ starts c.files making (inl refl)
        ∙ ap start_copying ((lists_agree root contents).1 ∙ listed)
        ∙ copying_first f fs in
      open_early f fs (finish streams root destination last c) (ap (λ t. t.phase) e ∙ p)
        (ap (λ t. is_ready streams root destination t.disk.folders f) e ∙ closed)
    where
      copying_first :
          (g : Segments) (gs : List Segments) → start_copying (g ∷ gs) ≡ copying (g ∷ gs)
      copying_first g gs = refl
