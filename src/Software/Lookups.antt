-- ===== src/Software/Lookups.antt =====
-- What is found after an install (packages/@twokeys/addons/src/software.ts and
-- software-query-provider.ts).
use keys.Prelude.{
  ℕ, suc, Bool, true, false, none, some, List, [], ◌∷◌, ◌++◌, String, ◌≡◌, ◌≢◌, refl, sym, ap, ◌⊎◌,
  inl, inr, Bool-cases, ◌∙◌, eq_refl, ◌==◌, ◌||◌, any, keep, map, keep-append, keep-eq-nil, snoc,
  Result, Result-cases, ok, throws, ◌>>=◌, ◌>>◌, bind-ok, bind-after, try_catch-ok,
  try_catch-throws, pure, arith, Exec, try_catch,
}
use keys.Software.{
  Store, Thrown, constraint, software, executables, enoent, Outside, Software, SoftwareInDb,
  SoftwareDirectlyFromDb, Executable, from_sql, to_sql,
}
use keys.Software.Tables.{insert, software_conflicts, executable_conflicts, owned, part_of}
use keys.Software.Provider.{
  parse_executable, parse_software, selected_by, softwares_of, get_softwares,
}
use keys.Software.Methods.{
  insert_software, insert_executable, run_all, uuidv4, software_row, executable_row, add_executable,
  register, roll_back, run_install, install_software, is_set, get_software, first_or,
}
use keys.Software.Installs.{numbered, add_all_lem}

-- With names that are no wildcards, the query is the one for both.
pub keep-selected_by :
    (name owner : String)
    → (owner == "*") ≡ false
    → (name == "*" || name == "") ≡ false
    → (rows : List SoftwareDirectlyFromDb)
    → keep (selected_by (some name) owner) rows ≡ keep (owned name owner) rows
unfolding selected_by
keep-selected_by name owner o n [] = refl
keep-selected_by name owner o n (r ∷ rows) =
    ground (arith, o, n, keep-selected_by name owner o n rows)

from-to_sql : (b : Bool) → from_sql (to_sql b) ≡ b
from-to_sql true = refl
from-to_sql false = refl

keep-numbered :
    (out : Outside) (directory owner name id : String) (n : ℕ) (es : List Executable)
    → keep (part_of id) (numbered out directory owner name id n es)
      ≡ numbered out directory owner name id n es
unfolding numbered
keep-numbered out directory owner name id n [] = refl
keep-numbered out directory owner name id n (e ∷ es) =
    rw (eq_refl id, keep-numbered out directory owner name id (suc n) es)

pub not_owned :
    (r : SoftwareDirectlyFromDb) (rows : List SoftwareDirectlyFromDb)
    → any (software_conflicts r) rows ≡ false
    → any (owned r.name r.owner_name) rows ≡ false
not_owned r [] h = refl
not_owned r (q ∷ rows) h = ground (arith, not_owned r rows)

module _ (out : Outside) (directory owner : String) (x : Software) (s : Store) where
  abbrev pub id : String
  id = out.uuid s.generated

  abbrev pub row : SoftwareDirectlyFromDb
  row = software_row out directory owner id x

  abbrev pub added : Store
  added = record s { softwares = snoc s.softwares row; generated = suc s.generated }

  pub register-unfold :
      (any (software_conflicts row) s.softwares ≡ false)
        × (register out directory owner x s
            ≡ run_all (add_executable out directory owner x.base.name id) x.executables added)
      ⊎ (register out directory owner x s).0 ≡ throws (constraint software)
  unfolding register uuidv4 insert_software insert ◌>>=◌
  register-unfold = elim (Bool-cases (any (software_conflicts row) s.softwares)) [
    | inl c ↦ inr (rw c)
    | inr c ↦ inl (c, rw c)
  ]

  roll_back-throws : (e : Thrown) (t : Store) → (roll_back out directory owner x e t).0 ≢ ok tt
  unfolding roll_back ◌>>=◌
  roll_back-throws (constraint software) t h = ground (arith, h)
  roll_back-throws (constraint executables) t h = ground (arith, h)
  roll_back-throws _ t h = ground (arith, h)

  -- What is stored of the software, with the ids that are next.
  abbrev pub installed_software : SoftwareInDb
  installed_software = record {
    base = record {
      name = x.base.name;
      url = x.base.url;
      homepage = x.base.homepage;
      download_type = x.base.download_type;
      filename = none;
    };
    id = id;
    owner_name = owner;
    executables =
        map parse_executable
          (numbered out directory owner x.base.name id (suc s.generated) x.executables);
    installed = false;
    no_auto_install = is_set x.no_auto_install;
  }

  softwares-add_executable :
      (e : Executable) (t : Store)
      → (add_executable out directory owner x.base.name id e t).1.softwares ≡ t.softwares
  unfolding add_executable uuidv4 insert_executable insert ◌>>=◌
  softwares-add_executable e t =
      elim (Bool-cases (
        any
          (executable_conflicts
            (executable_row out directory owner x.base.name id e (out.uuid t.generated)))
          t.executables)) [ inl c ↦ rw c | inr c ↦ rw c ]

  unfoldable pub adding : Exec Thrown Store Unit
  adding = try_catch (register out directory owner x) (roll_back out directory owner x)

  unfoldable pub finished : Unit {0} → Exec Thrown Store Unit
  finished _ = run_install out directory owner x.base (is_set x.no_auto_install)

  pub registered :
      (install_software out directory owner x s).0 ≡ ok tt
      → (register out directory owner x s).0 ≡ ok tt
  unfolding install_software adding finished
  registered h = elim (Result-cases (register out directory owner x s).0) [
    | inl (_, q) ↦ q
    | inr (e, q) ↦
        let (_, r, _) = bind-ok finished adding s h in
        absurd (
          roll_back-throws e (register out directory owner x s).1 (
            sym (
              ap (λ u. u.0)
                (try_catch-throws (register out directory owner x) (roll_back out directory owner x)
                  s q))
            ∙ r))
  ]

  pure_after : (r : Result Thrown (Unit {0}) × Store) → r.0 ≡ ok tt → pure tt r.1 ≡ r
  unfolding ◌>>=◌
  pure_after r h = ap (λ q. (q, r.1)) (sym h)

  install-register :
      is_set x.no_auto_install ≡ true
      → (register out directory owner x s).0 ≡ ok tt
      → install_software out directory owner x s ≡ register out directory owner x s
  unfolding install_software adding finished run_install
  install-register a h =
      let t = try_catch-ok (register out directory owner x) (roll_back out directory owner x) s h in
      bind-after adding finished s (ap (λ u. u.0) t ∙ h)
      ∙ rw (a, t) (pure_after (register out directory owner x s) h)

  pub softwares-run_all :
      (es : List Executable) (t : Store)
      → (run_all (add_executable out directory owner x.base.name id) es t).1.softwares ≡ t.softwares
  unfolding run_all
  softwares-run_all [] t = refl
  softwares-run_all (e ∷ es) t = softwares-run_all es _ ∙ softwares-add_executable e t

  first_found :
      any (part_of id) s.executables ≡ false
      → any (software_conflicts row) s.softwares ≡ false
      → first_or out directory owner (enoent x.base.name) (
          map
            (parse_software (
              s.executables
              ++ numbered out directory owner x.base.name id (suc s.generated) x.executables))
            (keep (owned x.base.name owner) (snoc s.softwares row)))
        ≡ ok installed_software
  unfolding parse_software
  first_found f c = rw (
    keep-append (owned x.base.name owner) s.softwares (row ∷ []),
    keep-eq-nil (owned x.base.name owner) s.softwares (not_owned row s.softwares c),
    eq_refl x.base.name,
    eq_refl owner,
    keep-append (part_of id) s.executables,
    keep-eq-nil (part_of id) s.executables f,
    keep-numbered,
    from-to_sql,
  )

  get_software-of :
      (owner == "*") ≡ false
      → (x.base.name == "*" || x.base.name == "") ≡ false
      → any (part_of id) s.executables ≡ false
      → any (software_conflicts row) s.softwares ≡ false
      → (t : Store) → t.softwares ≡ snoc s.softwares row
      → t.executables
        ≡ s.executables
          ++ numbered out directory owner x.base.name id (suc s.generated) x.executables
      → (get_software out directory owner x.base.name t).0 ≡ ok installed_software
  unfolding get_software get_softwares softwares_of ◌>>=◌
  get_software-of o n f c t st et =
      rw (keep-selected_by x.base.name owner o n t.softwares, st, et) (first_found f c)

  -- Software that is not downloaded, once it is installed, is found under its name, with all its
  -- executables in order, where its id is new, the owner is not "*", and the name is neither "*"
  -- nor "".
  pub get-install :
      (owner == "*") ≡ false
      → (x.base.name == "*" || x.base.name == "") ≡ false
      → any (part_of (out.uuid s.generated)) s.executables ≡ false
      → is_set x.no_auto_install ≡ true
      → (install_software out directory owner x s).0 ≡ ok tt
      → ((install_software out directory owner x >> get_software out directory owner x.base.name)
          s).0
        ≡ ok installed_software
  get-install o n f a h = elim register-unfold [
    | inr q ↦ absurd (ground (arith, q, registered h))
    | inl (c, q) ↦
        let r = registered h in
        let i = install-register a r ∙ q in
        let es =
          add_all_lem out directory owner x.base.name id x.executables added
            (sym (ap (λ u. u.0) q) ∙ r) in
        rw
          (
            bind-after (install_software out directory owner x)
                (λ _. get_software out directory owner x.base.name) s h,
            i,
          )
          (get_software-of o n f c _ (softwares-run_all x.executables added) es)
  ]
