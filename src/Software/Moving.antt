-- ===== src/Software/Moving.antt =====
-- What a change of name does in updateSoftware of packages/@twokeys/addons/src/software.ts.
use keys.Prelude.{
  true, false, none, List, [], String, ◌≡◌, refl, sym, ap, ◌∙◌, snoc, Result, ok, throws, ◌>>=◌,
  ◌>>◌, bind-ok, pure, pure_lem, Preserves, Preserves-if, Preserves-pure, preserves_rules,
  if◌then◌else◌,
}
use keys.Software.{
  Store, Thrown, Outside, Effect, perform, copy, remove, SoftwareDirectlyFromDb,
  ExecutableDirectlyFromDb, SoftwareInDb,
}
use keys.Software.Methods.{run_all, get_software, folder_of, or_else, commit_softwares}
use keys.Software.Provider.{get_softwares}
use keys.Software.Updating.{
  PartialSoftware, nothing_given, renames, update_row, write_row, update_executables,
  update_software_record, move_folder, update_software, given,
}

-- The executables are the given ones, and nothing but `fx` has been done outside.
abbrev Unmoved : List ExecutableDirectlyFromDb → List Effect → Store → Type 0
Unmoved es fx s = (s.executables ≡ es) × (s.effects ≡ fx)

module _ (out : Outside) (directory owner : String) (es : List ExecutableDirectlyFromDb)
    (fx : List Effect) where
  written :
      (r : Result Thrown (List SoftwareDirectlyFromDb)) (s : Store)
      → Unmoved es fx s
      → Unmoved es fx (commit_softwares r s).1
  written (ok rows) s h = h
  written (throws e) s h = h

  none_updated :
      (name id : String)
      → Preserves (Unmoved es fx) (update_executables out directory owner name id [])
  unfolding update_executables run_all
  none_updated name id = record { after = λ s h. h }

  row_written :
      (d : PartialSoftware) (id : String)
      → Preserves (Unmoved es fx) (write_row out directory owner d id)
  row_written d id = record { after = λ s h. written _ s h }

  row_updated :
      (d : PartialSoftware) (id : String)
      → Preserves (Unmoved es fx) (update_row out directory owner d id)
  unfolding update_row
  row_updated d id = search (preserves_rules, row_written)

  found : (name : String) → Preserves (Unmoved es fx) (get_software out directory owner name)
  unfolding get_software get_softwares
  found name = search preserves_rules

  record_updated :
      (name : String) (d : PartialSoftware)
      → d.executables ≡ none
      → Preserves (Unmoved es fx) (update_software_record out directory owner name d)
  unfolding update_software_record
  record_updated name d e = rw e (search (preserves_rules, row_updated, none_updated))

  before_moving :
      (name : String) (d : PartialSoftware)
      → d.executables ≡ none
      → Preserves
          (Unmoved es fx)
          (if nothing_given d then pure tt else update_software_record out directory owner name d)
  before_moving name d e =
      Preserves-if (nothing_given d) _ _ (Preserves-pure tt) (record_updated name d e)

module _ (out : Outside) (directory owner : String) where
  abbrev moved : String → PartialSoftware → Store → Store
  moved name d s = record s {
    effects =
        snoc
          (snoc s.effects (
            copy (folder_of out directory owner name)
              (folder_of out directory owner (given d.name name))))
          (remove (folder_of out directory owner name));
  }

  both :
      (e f : Effect) (s : Store)
      → ((perform out e >> perform out f) s).0 ≡ ok tt
      → ((perform out e >> perform out f) s).1 ≡ record s { effects = snoc (snoc s.effects e) f }
  both e f s h =
      let (_, _, q) = bind-ok (λ (_ : Unit {0}). perform out f) (perform out e) s h in
      ap (λ u. u.1) q

  moving :
      (name : String) (d : PartialSoftware)
      → renames d name ≡ true
      → move_folder out directory owner name d ≡ (
          perform out (
            copy
              (folder_of out directory owner name)
              (folder_of out directory owner (given d.name name)))
          >> perform out (remove (folder_of out directory owner name)))
  unfolding move_folder
  moving name d r = rw r

  -- Renaming software without listing its executables, where it succeeds and nothing is
  -- reinstalled, leaves all stored executables as they are, with their paths, while the folder of the
  -- software's old name is copied to that of the new name and removed.
  pub update_software-stale_paths :
      (name : String) (d : PartialSoftware) (s : Store)
      → d.executables ≡ none
      → renames d name ≡ true
      → (update_software out directory owner name d false s).0 ≡ ok tt
      → ((update_software out directory owner name d false s).1.executables ≡ s.executables)
        × ((update_software out directory owner name d false s).1.effects
            ≡ snoc
                (snoc s.effects (
                  copy
                    (folder_of out directory owner name)
                    (folder_of out directory owner (given d.name name))))
                (remove (folder_of out directory owner name)))
  unfolding update_software
  update_software-stale_paths name d s n r h =
      let first =
        if nothing_given d then pure tt else update_software_record out directory owner name d in
      let look = get_software out directory owner (or_else d.name name) in
      let move = move_folder out directory owner name d in
      let rest = λ (r : SoftwareInDb). move >> pure tt in
      let (_, _, q) = bind-ok (λ _. look >>= rest) first s h in
      let (a, _, q') = bind-ok rest look (first s).1 (sym (ap (λ u. u.0) q) ∙ h) in
      let before =
        (found out directory owner s.executables s.effects (or_else d.name name)).after (first s).1
          ((before_moving out directory owner s.executables s.effects name d n).after s
            (refl, refl)) in
      let (_, m, q'') =
        bind-ok (λ (_ : Unit {0}). pure tt) move (look (first s).1).1
          (sym (ap (λ u. u.0) q') ∙ sym (ap (λ u. u.0) q) ∙ h) in
      let u = (look (first s).1).1 in
      let whole = ap (λ v. v.1) (q ∙ q' ∙ q'' ∙ pure_lem tt (move u).1) in
      let moves = moving name d r in
      let end = both _ _ u (sym (ap (λ k. (k u).0) moves) ∙ m) in
      let last = whole ∙ ap (λ k. (k u).1) moves ∙ end in
      (
        ap (λ t. t.executables) last ∙ before.0,
        ap (λ t. t.effects) last
            ∙ ap (λ fx. (moved name d (record s { effects = fx })).effects) before.1,
      )
