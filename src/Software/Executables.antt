-- ===== src/Software/Executables.antt =====
-- What is found of the executables of installed software (packages/@twokeys/addons/src/software.ts and
-- software-query-provider.ts).
use keys.Prelude.{
  suc, Bool, true, false, Option, some, List, [], ◌∷◌, ◌++◌, String, ◌≡◌, refl, sym, ap, ◌∙◌, subst,
  inl, inr, Bool-cases, eq_refl, ◌==◌, ◌&&◌, any, keep, map, keep-append, keep-eq-nil, snoc, Result,
  ok, throws, ◌>>=◌, bind-ok, try_catch-ok, Preserves, preserves_rules, arith, if◌then◌else◌,
}
use keys.Software.{
  Store, Thrown, constraint, standalone, zip, no_download, SoftwareDownloadTypes, software, enoent,
  Outside, Effect, perform, BaseSoftware, Software, SoftwareDirectlyFromDb,
  ExecutableDirectlyFromDb, Executable, sql_true,
}
use keys.Software.Tables.{software_conflicts, owned, part_of, part_of_found, id_of, update_where}
use keys.Software.Provider.{get_executables, name_selects}
use keys.Software.Methods.{
  run_install, install_software, register, roll_back, get_executable, first_or, executable_row,
  fetch, mark_installed, commit_softwares, is_set,
}
use keys.Software.Installs.{numbered, add_all_lem}
use keys.Software.Lookups.{
  id, row, added, register-unfold, registered, adding, finished, not_owned, softwares-run_all,
}

id_of-append :
    (n o : String) (rows more : List SoftwareDirectlyFromDb)
    → any (owned n o) rows ≡ false
    → id_of n o (rows ++ more) ≡ id_of n o more
unfolding id_of
id_of-append n o [] more h = refl
id_of-append n o (r ∷ rows) more h = ground (arith, h, id_of-append n o rows more)

abbrev mark : String → SoftwareDirectlyFromDb → SoftwareDirectlyFromDb
mark m r = if r.name == m then record r { installed = sql_true } else r

id_of-mark :
    (n o m : String) (rows : List SoftwareDirectlyFromDb)
    → id_of n o (map (mark m) rows) ≡ id_of n o rows
unfolding id_of
id_of-mark n o m [] = refl
id_of-mark n o m (r ∷ rows) = elim (Bool-cases (r.name == m)) [
  | inl e ↦ simp (e, id_of-mark n o m rows) refl
  | inr e ↦ simp (e, id_of-mark n o m rows) refl
]

-- What the executor of a query for executables sees of the store.
record Sees (n o : String) (i : Option String) (es : List ExecutableDirectlyFromDb) (t : Store)
    : Type 0 where
  has_id : id_of n o t.softwares ≡ i
  has_executables : t.executables ≡ es

module _ (n o : String) (i : Option String) (es : List ExecutableDirectlyFromDb) where
  perform-Sees : (out : Outside) (e : Effect) → Preserves (Sees n o i es) (perform out e)
  perform-Sees out e = record {
    after = λ s h. record { has_id = h.has_id; has_executables = h.has_executables };
  }

  committed-Sees :
      (b : Bool) (m : String) (s : Store)
      → Sees n o i es s
      → Sees n o i es
          (commit_softwares
            (if b then ok (map (mark m) s.softwares) else throws (constraint software))
            s).1
  committed-Sees true m s h = record {
    has_id = id_of-mark n o m s.softwares ∙ h.has_id;
    has_executables = h.has_executables;
  }
  committed-Sees false m s h = h

  mark-Sees :
      (out : Outside) (directory owner m : String)
      → Preserves (Sees n o i es) (mark_installed out directory owner m)
  unfolding mark_installed update_where
  mark-Sees out directory owner m = record { after = λ s h. committed-Sees _ m s h }

  fetch-Sees :
      (out : Outside) (directory owner : String) (b : BaseSoftware) (t : SoftwareDownloadTypes)
      → Preserves (Sees n o i es) (fetch out directory owner b t)
  unfolding fetch
  fetch-Sees out directory owner b standalone = search (preserves_rules, perform-Sees)
  fetch-Sees out directory owner b zip = search (preserves_rules, perform-Sees)
  fetch-Sees out directory owner b no_download = search preserves_rules

  run_install-Sees :
      (out : Outside) (directory owner : String) (b : BaseSoftware) (no_auto : Bool)
      → Preserves (Sees n o i es) (run_install out directory owner b no_auto)
  unfolding run_install
  run_install-Sees out directory owner b no_auto = search (preserves_rules, fetch-Sees, mark-Sees)

module _ (out : Outside) (directory owner : String) (x : Software) (s : Store) where
  abbrev new_id : String
  new_id = id out directory owner x s

  abbrev new_executables : List ExecutableDirectlyFromDb
  new_executables = numbered out directory owner x.base.name new_id (suc s.generated) x.executables

  abbrev SeesNew : Store → Type 0
  SeesNew = Sees x.base.name owner (some new_id) (s.executables ++ new_executables)

  new_id_of :
      any (software_conflicts (row out directory owner x s)) s.softwares ≡ false
      → id_of x.base.name owner (snoc s.softwares (row out directory owner x s)) ≡ some new_id
  unfolding id_of
  new_id_of c =
      id_of-append x.base.name owner s.softwares (row out directory owner x s ∷ [])
        (not_owned (row out directory owner x s) s.softwares c)
      ∙ rw (eq_refl x.base.name, eq_refl owner) refl

  register-SeesNew :
      (register out directory owner x s).0 ≡ ok tt → SeesNew (register out directory owner x s).1
  register-SeesNew h = elim (register-unfold out directory owner x s) [
    | inr q ↦ absurd (ground (arith, q, h))
    | inl (c, q) ↦
        subst (λ r. SeesNew r.1) (sym q)
          (record {
            has_id =
                ap (id_of x.base.name owner) (
                  softwares-run_all out directory owner x s x.executables
                    (added out directory owner x s))
                ∙ new_id_of c;
            has_executables =
                add_all_lem out directory owner x.base.name new_id x.executables
                  (added out directory owner x s) (sym (ap (λ u. u.0) q) ∙ h);
          })
  ]

  install-SeesNew :
      (install_software out directory owner x s).0 ≡ ok tt
      → SeesNew (install_software out directory owner x s).1
  unfolding install_software adding finished
  install-SeesNew h =
      let r = registered out directory owner x s h in
      let (a, e, q) =
        bind-ok (finished out directory owner x s) (adding out directory owner x s) s h in
      let same =
        try_catch-ok (register out directory owner x) (roll_back out directory owner x) s r in
      subst {A = Result Thrown (Unit {0}) × Store} (λ u. SeesNew u.1) (sym q)
        ((run_install-Sees x.base.name owner (some new_id) (s.executables ++ new_executables) out
            directory owner x.base (is_set x.no_auto_install)).after
          (adding out directory owner x s s).1
          (subst {A = Result Thrown (Unit {0}) × Store} (λ u. SeesNew u.1) (sym same)
            (register-SeesNew r)))

  first_of :
      (e : Executable) (rest : List ExecutableDirectlyFromDb)
      → any (part_of new_id) s.executables ≡ false
      → (e.name == "") ≡ false
      → first_or out directory owner (enoent e.name) (
          keep
            (λ r. name_selects (some e.name) r && part_of new_id r)
            (s.executables
              ++ executable_row out directory owner x.base.name new_id e
                  (out.uuid (suc s.generated))
                ∷ rest))
        ≡ ok (executable_row out directory owner x.base.name new_id e (out.uuid (suc s.generated)))
  first_of e rest f named =
      rw
        (
          keep-append (λ r. name_selects (some e.name) r && part_of new_id r) s.executables,
          keep-eq-nil (λ r. name_selects (some e.name) r && part_of new_id r) s.executables
              (none_of s.executables f),
          named,
          eq_refl e.name,
          eq_refl new_id,
        )
        refl
    where
      none_of :
          (rows : List ExecutableDirectlyFromDb)
          → any (part_of new_id) rows ≡ false
          → any (λ r. name_selects (some e.name) r && part_of new_id r) rows ≡ false
      none_of [] h = refl
      none_of (r ∷ rows) h = ground (arith, h, none_of rows)

  pub get_executable-install :
      (e : Executable) (es : List Executable)
      → x.executables ≡ e ∷ es
      → any (part_of (id out directory owner x s)) s.executables ≡ false
      → (e.name == "") ≡ false
      → (install_software out directory owner x s).0 ≡ ok tt
      → (get_executable out directory owner x.base.name e.name
          (install_software out directory owner x s).1).0
        ≡ ok (
            executable_row out directory owner x.base.name
              (id out directory owner x s)
              e
              (out.uuid (suc s.generated)))
  unfolding get_executable get_executables numbered ◌>>=◌
  get_executable-install e es listed f named h =
      let sees = install-SeesNew h in
      ap
        (λ rows. first_or out directory owner (enoent e.name) (
          keep
            (λ r.
              name_selects (some e.name) r
              && part_of_found
                  (id_of x.base.name owner (install_software out directory owner x s).1.softwares)
                  r)
            rows))
        sees.has_executables
      ∙ ap
          (λ i. first_or out directory owner (enoent e.name) (
            keep (λ r. name_selects (some e.name) r && part_of_found i r)
              (s.executables ++ new_executables)))
          sees.has_id
      ∙ ap
          (λ l. first_or out directory owner (enoent e.name) (
            keep (λ r. name_selects (some e.name) r && part_of new_id r)
              (s.executables
                ++ numbered out directory owner x.base.name new_id (suc s.generated) l)))
          listed
      ∙ first_of e _ f named
