-- ===== src/Software/Consistency.antt =====
-- No method of packages/@twokeys/addons/src/software.ts leaves two pieces of software with one id,
-- or with one name and owner, or two such executables.
use keys.Prelude.{
  Bool, true, false, List, [], ◌∷◌, String, ◌≡◌, refl, eq_iff, not, any, any-append, any-keep-false,
  snoc, modify, ◌>>=◌, Exec, Preserves, preserves_rules, arith,
}
use keys.Software.{
  Store, Thrown, constraint, software, executables, software_name_used, executable_name_used,
  enoent, no_software_id, no_path, foreign, Outside, Effect, perform, Software,
  SoftwareDirectlyFromDb, ExecutableDirectlyFromDb, standalone, zip, no_download, BaseSoftware,
  SoftwareDownloadTypes, Executable,
}
use keys.Software.Tables.{
  distinct, insert, update_where, delete_where, software_conflicts, executable_conflicts,
  part_of_found, id_of, owned,
}
use keys.Software.Provider.{uninstall_software}
use keys.Software.Methods.{
  commit_softwares, commit_executables, insert_software, insert_executable, delete_software,
  run_all, uuidv4, add_executable, register, roll_back, fetch, mark_installed, run_install,
  install_software,
}

module _ {A : Type 0} (clash : A → A → Bool) (comm : (a b : A) → clash a b ≡ clash b a) where
  distinct-snoc :
      (row : A) (rows : List A)
      → any (clash row) rows ≡ false
      → distinct clash rows ≡ true
      → distinct clash (snoc rows row) ≡ true
  unfolding distinct
  distinct-snoc row [] h d = refl
  distinct-snoc row (r ∷ rs) h d =
      ground (arith, any-append (clash r) rs (row ∷ []), comm r row, distinct-snoc row rs)

module _ {A : Type 0} (clash : A → A → Bool) where
  distinct-delete_where :
      (p : A → Bool) (rows : List A)
      → distinct clash rows ≡ true
      → distinct clash (delete_where p rows) ≡ true
  unfolding distinct delete_where
  distinct-delete_where p [] d = refl
  distinct-delete_where p (r ∷ rs) d =
      ground (arith, any-keep-false (clash r) (λ x. not (p x)) rs, distinct-delete_where p rs)

software_conflicts_comm :
    (a b : SoftwareDirectlyFromDb) → software_conflicts a b ≡ software_conflicts b a
software_conflicts_comm a b = ground (
  arith,
  eq_iff a.id b.id,
  eq_iff b.id a.id,
  eq_iff a.name b.name,
  eq_iff b.name a.name,
  eq_iff a.owner_name b.owner_name,
  eq_iff b.owner_name a.owner_name,
)

executable_conflicts_comm :
    (a b : ExecutableDirectlyFromDb) → executable_conflicts a b ≡ executable_conflicts b a
executable_conflicts_comm a b = ground (
  arith,
  eq_iff a.id b.id,
  eq_iff b.id a.id,
  eq_iff a.name b.name,
  eq_iff b.name a.name,
  eq_iff a.software_id b.software_id,
  eq_iff b.software_id a.software_id,
)

-- The tables satisfy their constraints.
abbrev pub IsConsistent : Store → Type 0
IsConsistent s =
    (distinct software_conflicts s.softwares ≡ true)
    × (distinct executable_conflicts s.executables ≡ true)

insert_software-IsConsistent :
    (row : SoftwareDirectlyFromDb) → Preserves IsConsistent (insert_software row)
unfolding insert_software insert
insert_software-IsConsistent row = record {
  after = λ s h.
      ground (arith, h, distinct-snoc software_conflicts software_conflicts_comm row s.softwares);
}

pub insert_executable-IsConsistent :
    (row : ExecutableDirectlyFromDb) → Preserves IsConsistent (insert_executable row)
unfolding insert_executable insert
insert_executable-IsConsistent row = record {
  after = λ s h.
      ground
        (arith, h, distinct-snoc executable_conflicts executable_conflicts_comm row s.executables);
}

pub update_softwares-IsConsistent :
    (p : SoftwareDirectlyFromDb → Bool) (f : SoftwareDirectlyFromDb → SoftwareDirectlyFromDb)
    → Preserves IsConsistent
        (λ s. commit_softwares (update_where software_conflicts software p f s.softwares) s)
unfolding update_where
update_softwares-IsConsistent p f = record { after = λ s h. ground (arith, h) }

pub update_executables-IsConsistent :
    (p : ExecutableDirectlyFromDb → Bool) (f : ExecutableDirectlyFromDb → ExecutableDirectlyFromDb)
    → Preserves IsConsistent (λ s.
      commit_executables (update_where executable_conflicts executables p f s.executables) s)
unfolding update_where
update_executables-IsConsistent p f = record { after = λ s h. ground (arith, h) }

pub deleting-IsConsistent :
    (p : ExecutableDirectlyFromDb → Bool)
    → Preserves {E = Thrown} IsConsistent
        (modify λ (s : Store). record s { executables = delete_where p s.executables })
unfolding ◌>>=◌
deleting-IsConsistent p = record {
  after = λ s h. (h.0, distinct-delete_where executable_conflicts p s.executables h.1);
}

delete_software-IsConsistent :
    (name owner : String) → Preserves IsConsistent (delete_software name owner)
unfolding delete_software ◌>>=◌
delete_software-IsConsistent name owner = record {
  after = λ s h. (distinct-delete_where software_conflicts (owned name owner) s.softwares h.0, h.1);
}

pub uninstall_software-IsConsistent :
    (is_open : Bool) (name owner : String)
    → Preserves IsConsistent (uninstall_software is_open name owner)
unfolding uninstall_software ◌>>=◌
uninstall_software-IsConsistent false name owner = record { after = λ s h. h }
uninstall_software-IsConsistent true name owner = record {
  after = λ s h. (
    distinct-delete_where software_conflicts (owned name owner) s.softwares h.0,
    distinct-delete_where executable_conflicts (part_of_found (id_of name owner s.softwares))
        s.executables h.1,
  );
}

pub run_all-IsConsistent :
    {A : Type 0} (f : A → Exec Thrown Store Unit) (xs : List A)
    → ((a : A) → Preserves IsConsistent (f a))
    → Preserves IsConsistent (run_all f xs)
unfolding run_all
run_all-IsConsistent f [] k = record { after = λ s h. h }
run_all-IsConsistent f (x ∷ xs) k = record {
  after = λ s h. (run_all-IsConsistent f xs k).after (f x s).1 ((k x).after s h);
}

pub perform-IsConsistent : (out : Outside) (e : Effect) → Preserves IsConsistent (perform out e)
perform-IsConsistent out e = record { after = λ s h. h }

module _ (out : Outside) (directory owner : String) where
  pub uuidv4-IsConsistent : Preserves IsConsistent (uuidv4 out directory owner)
  unfolding uuidv4
  uuidv4-IsConsistent = record { after = λ s h. h }

  add_executable-IsConsistent :
      (name id : String) (e : Executable)
      → Preserves IsConsistent (add_executable out directory owner name id e)
  unfolding add_executable
  add_executable-IsConsistent name id e =
      search (preserves_rules, uuidv4-IsConsistent, insert_executable-IsConsistent)

  register-IsConsistent : (s : Software) → Preserves IsConsistent (register out directory owner s)
  unfolding register
  register-IsConsistent s = search (
    preserves_rules, uuidv4-IsConsistent, insert_software-IsConsistent, run_all-IsConsistent,
    add_executable-IsConsistent,
  )

  roll_back-IsConsistent :
      (s : Software) (e : Thrown) → Preserves IsConsistent (roll_back out directory owner s e)
  unfolding roll_back
  roll_back-IsConsistent s (constraint software) = search preserves_rules
  roll_back-IsConsistent s (constraint executables) =
      search (preserves_rules, delete_software-IsConsistent)
  roll_back-IsConsistent s software_name_used = search preserves_rules
  roll_back-IsConsistent s executable_name_used = search preserves_rules
  roll_back-IsConsistent s (enoent _) = search preserves_rules
  roll_back-IsConsistent s (no_software_id _) = search preserves_rules
  roll_back-IsConsistent s (no_path _) = search preserves_rules
  roll_back-IsConsistent s foreign = search preserves_rules

  pub fetch-IsConsistent :
      (b : BaseSoftware) (t : SoftwareDownloadTypes)
      → Preserves IsConsistent (fetch out directory owner b t)
  unfolding fetch
  fetch-IsConsistent b standalone = search perform-IsConsistent
  fetch-IsConsistent b zip = search (preserves_rules, perform-IsConsistent)
  fetch-IsConsistent b no_download = search preserves_rules

  mark_installed-IsConsistent :
      (name : String) → Preserves IsConsistent (mark_installed out directory owner name)
  unfolding mark_installed
  mark_installed-IsConsistent name = update_softwares-IsConsistent _ _

  pub run_install-IsConsistent :
      (b : BaseSoftware) (n : Bool) → Preserves IsConsistent (run_install out directory owner b n)
  unfolding run_install
  run_install-IsConsistent b n =
      search (preserves_rules, fetch-IsConsistent, mark_installed-IsConsistent)

  pub installing-IsConsistent :
      (s : Software) → Preserves IsConsistent (install_software out directory owner s)
  unfolding install_software
  installing-IsConsistent s =
      search
        (preserves_rules, register-IsConsistent, roll_back-IsConsistent, run_install-IsConsistent)

  -- Installing software keeps both tables consistent, whether it returns or throws, whatever the
  -- downloads do.
  pub install_software-IsConsistent :
      (s : Software) (store : Store)
      → IsConsistent store
      → IsConsistent (install_software out directory owner s store).1
  install_software-IsConsistent s = (installing-IsConsistent s).after
