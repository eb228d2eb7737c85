-- ===== src/Legacy/Copier/Schedules.antt =====
-- When the promise of `mkdirs` settles, in
-- packages/@twokeys/legacy-server/src/util/copy-contents-class.ts.
use keys.Prelude.{
  Bool, true, false, List, [], ◌∷◌, ◌≡◌, refl, ap, ◌∙◌, ◌++◌, Result, ok, throws, arith, inl, inr,
  Bool-cases,
}
use keys.Copier.{
  Segments, Folder, Thrown, Disk, is_folder, Streams, same, get_dirs_from_tree, generate_file_tree,
}
use keys.Legacy.Copier.{
  Event, finished, next_file, Phase, making, copying, returned, failed, Copy, is_last,
  start_copying, settle, finish, after_file, copy_next, happen, run, start,
}
use keys.Legacy.Copier.Lists.{lists_agree}

-- The promise has been resolved or rejected.
abbrev pub is_settled : Phase → Bool
is_settled making = false
is_settled (copying fs) = true
is_settled returned = true
is_settled (failed e) = true

abbrev pub finishes : Segments → Event → Bool
finishes p (finished q) = same p q
finishes p next_file = false

module _ (streams : Streams) (root destination : Segments) where
  abbrev exec : List Event → Copy → Copy
  exec = run streams root destination

  start_copying-settled : (fs : List Segments) → is_settled (start_copying fs) ≡ true
  unfolding start_copying
  start_copying-settled [] = refl
  start_copying-settled (f ∷ fs) = refl

  settle-settled :
      (last : Bool) (files : List Segments) (r : Result Thrown (Unit {0})) (p : Phase)
      → is_settled p ≡ true
      → is_settled (settle streams root destination last files r p) ≡ true
  unfolding settle
  settle-settled last files r (copying fs) h = refl
  settle-settled last files r returned h = refl
  settle-settled last files r (failed e) h = refl
  settle-settled last files r making h = absurd (ground (arith, h))

  settle-last :
      (files : List Segments) (r : Result Thrown (Unit {0})) (p : Phase)
      → is_settled (settle streams root destination true files r p) ≡ true
  unfolding settle
  settle-last files (ok x) making = start_copying-settled files
  settle-last files (throws e) making = refl
  settle-last files r (copying fs) = refl
  settle-last files r returned = refl
  settle-last files r (failed e) = refl

  finish-settled :
      (p : Segments) (c : Copy)
      → is_settled c.phase ≡ true
      → is_settled (finish streams root destination p c).phase ≡ true
  unfolding finish
  finish-settled p c h = elim (Bool-cases (is_folder p c.dirs)) [
    | inl e ↦ rw e (settle-settled _ c.files _ c.phase h)
    | inr e ↦ rw e h
  ]

  after_file-settled :
      (fs : List Segments) (r : Result Thrown (Unit {0}) × Disk) (c : Copy)
      → is_settled (after_file streams root destination fs r c).phase ≡ true
  unfolding after_file
  after_file-settled fs (ok x, d) c = start_copying-settled fs
  after_file-settled fs (throws e, d) c = refl

  next-settled :
      (p : Phase) (c : Copy)
      → is_settled c.phase ≡ true
      → is_settled (copy_next streams root destination p c).phase ≡ true
  unfolding copy_next
  next-settled (copying (f ∷ fs)) c h = after_file-settled fs _ c
  next-settled (copying []) c h = h
  next-settled making c h = h
  next-settled returned c h = h
  next-settled (failed e) c h = h

  run-settled :
      (es : List Event) (c : Copy) → is_settled c.phase ≡ true → is_settled (exec es c).phase ≡ true
  unfolding run happen
  run-settled [] c h = h
  run-settled (finished p ∷ es) c h = run-settled es _ (finish-settled p c h)
  run-settled (next_file ∷ es) c h = run-settled es _ (next-settled c.phase c h)

  keeps_dirs : (e : Event) (c : Copy) → (happen streams root destination e c).dirs ≡ c.dirs
  unfolding happen finish copy_next after_file
  keeps_dirs (finished p) c = elim (Bool-cases (is_folder p c.dirs)) [
    | inl e ↦ rw e refl
    | inr e ↦ rw e refl
  ]
  keeps_dirs next_file c = next c.phase
    where
      filed :
          (fs : List Segments) (r : Result Thrown (Unit {0}) × Disk)
          → (after_file streams root destination fs r c).dirs ≡ c.dirs
      filed fs (ok x, d) = refl
      filed fs (throws e, d) = refl

      next : (p : Phase) → (copy_next streams root destination p c).dirs ≡ c.dirs
      next (copying (f ∷ fs)) = filed fs _
      next (copying []) = refl
      next making = refl
      next returned = refl
      next (failed e) = refl

  pub asked_last : (ds : List Segments) (p : Segments) → is_last ds p ≡ true → is_folder p ds ≡ true
  unfolding is_last
  asked_last [] p h = h
  asked_last (d ∷ []) p h = rw h refl
  asked_last (d ∷ e ∷ ds) p h = ground (arith, asked_last (e ∷ ds) p)

  -- Once the call of `mkdirp` for the last folder of the list has ended, the promise of `mkdirs` is
  -- settled, whatever came before, comes after, and whether or not that call failed.
  pub settled_by_last :
      (c : Copy) (before after : List Event) (p : Segments)
      → is_last c.dirs p ≡ true
      → is_settled (exec (before ++ finished p ∷ after) c).phase ≡ true
  unfolding run happen finish
  settled_by_last c [] after p h =
      run-settled after _ (rw (asked_last c.dirs p h, h) (settle-last c.files _ c.phase))
  settled_by_last c (e ∷ es) after p h =
      settled_by_last (happen streams root destination e c) es after p
        (ap (λ ds. is_last ds p) (keeps_dirs e c) ∙ h)

  waits : (es : List Event) (c : Copy) → c.dirs ≡ [] → c.phase ≡ making → exec es c ≡ c
  unfolding run happen finish copy_next
  waits [] c h k = refl
  waits (finished p ∷ es) c h k = simp (h, waits es c h k)
  waits (next_file ∷ es) c h k = simp (k, waits es c h k)

  -- Where no folder lies in the root, the promise of `mkdirs` never settles: whatever events are
  -- tried, the copy stays where it started and nothing is ever written.
  pub never_settles :
      (contents : Folder) (d : Disk) (es : List Event)
      → get_dirs_from_tree (generate_file_tree root contents) ≡ []
      → exec es (start streams root destination contents d)
        ≡ start streams root destination contents d
  unfolding start
  never_settles contents d es h = waits es _ ((lists_agree root contents).0 ∙ h) refl
