-- ===== src/Software/Rollback.antt =====
-- What installSoftware of packages/@twokeys/addons/src/software.ts leaves where it rolls back.
use keys.Prelude.{
  suc, Bool, true, false, List, [], ◌∷◌, String, ◌≡◌, refl, ap, inl, inr, Bool-cases, ◌∙◌, eq_iff,
  eq_refl, ◌==◌, any, any-append, any-snoc, snoc, throws, ◌>>=◌, bind-throws, try_catch-throws,
  arith, Exec, try_catch,
}
use keys.Software.{
  Store, Thrown, constraint, executables, executable_name_used, Outside, Software,
  SoftwareDirectlyFromDb, ExecutableDirectlyFromDb, Executable,
}
use keys.Software.Tables.{
  delete_where, software_conflicts, executable_conflicts, insert, owned, part_of,
}
use keys.Software.Methods.{
  run_all, executable_row, add_executable, delete_software, register, roll_back, install_software,
  uuidv4, insert_executable,
}
use keys.Software.Lookups.{id, row, added, register-unfold, softwares-run_all}

none_left :
    (r : SoftwareDirectlyFromDb) (rows : List SoftwareDirectlyFromDb)
    → any (software_conflicts r) rows ≡ false
    → any (λ q. q.id == r.id) (delete_where (owned r.name r.owner_name) (snoc rows r)) ≡ false
unfolding delete_where
none_left r [] c = rw (eq_refl r.name, eq_refl r.owner_name)
none_left r (q ∷ rows) c = ground (arith, c, none_left r rows, eq_iff q.id r.id, eq_iff r.id q.id)

module _ (out : Outside) (directory owner name i : String)
    (p : ExecutableDirectlyFromDb → Bool) where
  add_executable-grows :
      (e : Executable) (t : Store)
      → any p t.executables ≡ true
      → any p (add_executable out directory owner name i e t).1.executables ≡ true
  unfolding add_executable uuidv4 insert_executable insert ◌>>=◌
  add_executable-grows e t h =
      elim (Bool-cases (
        any
          (executable_conflicts
            (executable_row out directory owner name i e (out.uuid t.generated)))
          t.executables)) [ inl c ↦ rw c h | inr c ↦ rw (c, any-append, h) ]

  first_added :
      (e : Executable) (t : Store)
      → any
          (executable_conflicts
            (executable_row out directory owner name i e (out.uuid t.generated)))
          t.executables
        ≡ false
      → p (executable_row out directory owner name i e (out.uuid t.generated)) ≡ true
      → any p (add_executable out directory owner name i e t).1.executables ≡ true
  unfolding add_executable uuidv4 insert_executable insert ◌>>=◌
  first_added e t f h = rw f (any-snoc p t.executables h)

  run_all-grows :
      (es : List Executable) (t : Store)
      → any p t.executables ≡ true
      → any p (run_all (add_executable out directory owner name i) es t).1.executables ≡ true
  unfolding run_all
  run_all-grows [] t h = h
  run_all-grows (e ∷ es) t h = run_all-grows es _ (add_executable-grows e t h)

  run_all-keeps_first :
      (e : Executable) (es : List Executable) (t : Store)
      → any
          (executable_conflicts
            (executable_row out directory owner name i e (out.uuid t.generated)))
          t.executables
        ≡ false
      → p (executable_row out directory owner name i e (out.uuid t.generated)) ≡ true
      → any p (run_all (add_executable out directory owner name i) (e ∷ es) t).1.executables ≡ true
  unfolding run_all
  run_all-keeps_first e es t f h =
      run_all-grows es (add_executable out directory owner name i e t).1 (first_added e t f h)

module _ (out : Outside) (directory owner : String) (x : Software) (s : Store) where
  abbrev registering : Exec Thrown Store Unit
  registering = register out directory owner x

  abbrev rolled_back : Store → Store
  rolled_back t = record t { softwares = delete_where (owned x.base.name owner) t.softwares }

  roll_back_lem :
      (t : Store)
      → roll_back out directory owner x (constraint executables) t
        ≡ (throws executable_name_used, rolled_back t)
  unfolding roll_back delete_software ◌>>=◌
  roll_back_lem t = refl

  install-rolled_back :
      (registering s).0 ≡ throws (constraint executables)
      → install_software out directory owner x s
        ≡ (throws executable_name_used, rolled_back (registering s).1)
  unfolding install_software
  install-rolled_back r =
      let t =
        try_catch-throws registering (roll_back out directory owner x) s r
        ∙ roll_back_lem (registering s).1 in
      bind-throws (try_catch registering (roll_back out directory owner x)) _ s (ap (λ u. u.0) t)
      ∙ ap (λ u. (throws executable_name_used, u.1)) t

  -- Where one of several executables is refused after the first was added, the roll-back removes the
  -- software but leaves the executable, which is then part of no software.
  pub roll_back-orphans :
      (e : Executable) (es : List Executable)
      → x.executables ≡ e ∷ es
      → (register out directory owner x s).0 ≡ throws (constraint executables)
      → any
          (executable_conflicts (
            executable_row out directory owner x.base.name
              (out.uuid s.generated)
              e
              (out.uuid (suc s.generated))))
          s.executables
        ≡ false
      → (any
            (λ q. q.id == out.uuid s.generated)
            (install_software out directory owner x s).1.softwares
          ≡ false)
        × (any
              (part_of (out.uuid s.generated))
              (install_software out directory owner x s).1.executables
            ≡ true)
  roll_back-orphans e es q r f = elim (register-unfold out directory owner x s) [
    | inr u ↦ absurd (ground (arith, u, r))
    | inl (c, u) ↦
        let i = id out directory owner x s in
        let start = added out directory owner x s in
        (
          rw
              (
                install-rolled_back r,
                u,
                softwares-run_all out directory owner x s x.executables start,
              )
              (none_left (row out directory owner x s) s.softwares c),
          rw (install-rolled_back r, u, q)
              (run_all-keeps_first out directory owner x.base.name i (part_of i) e es start f
                (eq_refl i)),
        )
  ]
