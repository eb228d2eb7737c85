-- ===== src/Software/Installs.antt =====
-- What installing software leaves in the tables (packages/@twokeys/addons/src/software.ts).
use keys.Prelude.{
  ℕ, suc, Bool, false, List, [], ◌∷◌, ◌++◌, String, ◌≡◌, refl, sym, ap, ◌⊎◌, inl, inr, Bool-cases,
  ◌∙◌, ◌==◌, ◌&&◌, not, any, map, snoc, append-nil, append_assoc, ok, throws, ◌>>=◌, ◌>>◌, bind-ok,
  arith, if◌then◌else◌, Exec,
}
use keys.Software.{
  Store, Thrown, constraint, executables, Outside, SoftwareDirectlyFromDb, ExecutableDirectlyFromDb,
  BaseSoftware, Executable, sql_true, from_sql,
}
use keys.Software.Tables.{distinct, insert, update_where, software_conflicts, executable_conflicts}
use keys.Software.Methods.{
  insert_executable, run_all, uuidv4, executable_row, add_executable, fetch, mark_installed,
  run_install, needs_no_download,
}
use keys.Software.Consistency.{IsConsistent, fetch-IsConsistent}

abbrev mark : String → SoftwareDirectlyFromDb → SoftwareDirectlyFromDb
mark n row = if row.name == n then record row { installed = sql_true } else row

any-mark :
    (n : String) (r : SoftwareDirectlyFromDb) (rows : List SoftwareDirectlyFromDb)
    → any (software_conflicts (mark n r)) (map (mark n) rows) ≡ any (software_conflicts r) rows
any-mark n r [] = refl
any-mark n r (q ∷ rows) = ground (arith, any-mark n r rows)

distinct-mark :
    (n : String) (rows : List SoftwareDirectlyFromDb)
    → distinct software_conflicts (map (mark n) rows) ≡ distinct software_conflicts rows
unfolding distinct
distinct-mark n [] = refl
distinct-mark n (r ∷ rows) = ground (arith, any-mark n r rows, distinct-mark n rows)

-- The software of a name is not downloaded.
abbrev pub is_missing : String → SoftwareDirectlyFromDb → Bool
is_missing n row = row.name == n && not (from_sql row.installed)

none_missing :
    (n : String) (rows : List SoftwareDirectlyFromDb)
    → any (is_missing n) (map (mark n) rows) ≡ false
none_missing n [] = refl
none_missing n (r ∷ rows) = ground (arith, none_missing n rows)

module _ (out : Outside) (directory owner : String) where
  mark_installed_lem :
      (n : String) (s : Store)
      → IsConsistent s
      → mark_installed out directory owner n s
        ≡ (ok tt, record s { softwares = map (mark n) s.softwares })
  unfolding mark_installed update_where
  mark_installed_lem n s h = rw (distinct-mark n s.softwares, h.0)

  downloading :
      (b : BaseSoftware)
      → needs_no_download b.download_type ≡ false
      → run_install out directory owner b false
        ≡ (fetch out directory owner b b.download_type >> mark_installed out directory owner b.name)
  unfolding run_install
  downloading b d = rw d

  -- Once a download has succeeded, from a store with consistent tables, no software of its name,
  -- of whichever add-on, is recorded as not installed.
  pub run_install-all_owners :
      (b : BaseSoftware) (s : Store)
      → IsConsistent s
      → needs_no_download b.download_type ≡ false
      → (run_install out directory owner b false s).0 ≡ ok tt
      → any (is_missing b.name) (run_install out directory owner b false s).1.softwares ≡ false
  run_install-all_owners b s h d e =
      let fetching = fetch out directory owner b b.download_type in
      let (_, _, q) =
        bind-ok (λ _. mark_installed out directory owner b.name) fetching s
          (sym (ap (λ m. (m s).0) (downloading b d)) ∙ e) in
      let after = (fetch-IsConsistent out directory owner b b.download_type).after s h in
      rw (downloading b d, q, mark_installed_lem b.name (fetching s).1 after, none_missing)

-- The rows that the executables become: ids from `n` on.
unfoldable pub numbered :
    Outside
    → String
    → String
    → String
    → String
    → ℕ
    → List Executable
    → List ExecutableDirectlyFromDb
numbered out directory owner name id n [] = []
numbered out directory owner name id n (e ∷ es) =
    executable_row out directory owner name id e (out.uuid n)
    ∷ numbered out directory owner name id (suc n) es

module _ {A : Type 0} (f : A → Exec Thrown Store Unit) (x : A) (xs : List A) {s : Store} where
  pub run_all-ok : {t : Store} → f x s ≡ (ok tt, t) → run_all f (x ∷ xs) s ≡ run_all f xs t
  unfolding run_all
  run_all-ok q = rw q

  run_all-throws : {e : Thrown} → (f x s).0 ≡ throws e → (run_all f (x ∷ xs) s).0 ≡ throws e
  unfolding run_all
  run_all-throws q = rw q

module _ (out : Outside) (directory owner name id : String) where
  abbrev pub after_one : Executable → Store → Store
  after_one e s = record s {
    executables =
        snoc s.executables (executable_row out directory owner name id e (out.uuid s.generated));
    generated = suc s.generated;
  }

  pub add_one :
      (e : Executable) (s : Store)
      → (add_executable out directory owner name id e s ≡ (ok tt, after_one e s))
        ⊎ ((add_executable out directory owner name id e s).0 ≡ throws (constraint executables))
  unfolding add_executable uuidv4 insert_executable ◌>>=◌ insert
  add_one e s =
      elim (Bool-cases (
        any
          (executable_conflicts
            (executable_row out directory owner name id e (out.uuid s.generated)))
          s.executables)) [ inl c ↦ inr (rw c) | inr c ↦ inl (rw c) ]

  pub add_all_lem :
      (es : List Executable) (s : Store)
      → (run_all (add_executable out directory owner name id) es s).0 ≡ ok tt
      → (run_all (add_executable out directory owner name id) es s).1.executables
        ≡ s.executables ++ numbered out directory owner name id s.generated es
  unfolding run_all numbered
  add_all_lem [] s h = sym (append-nil s.executables)
  add_all_lem (e ∷ es) s h = elim (add_one e s) [
    | inl q ↦
        let r = run_all-ok (add_executable out directory owner name id) e es q in
        let ih = add_all_lem es (after_one e s) (sym (ap (λ u. u.0) r) ∙ h) in
        ap (λ u. u.1.executables) r
        ∙ ih
        ∙ append_assoc s.executables
            (executable_row out directory owner name id e (out.uuid s.generated) ∷ []) _
    | inr q ↦ ground (arith, h, run_all-throws (add_executable out directory owner name id) e es q)
  ]
