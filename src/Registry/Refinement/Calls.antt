-- ===== src/Registry/Refinement/Calls.antt =====
-- Sequences of calls of packages/@twokeys/addons/src/registry.ts against the specification.
use keys.Prelude.{
  ℕ, true, false, Option, some, List, [], ◌∷◌, String, ◌≡◌, refl, sym, ap, subst, ◌∙◌, includes,
  Result, ok, throws, Bool-cases, inl, inr, arith, ◌>>=◌, ◌>>◌, reads-bind, bind-after, bind-throws,
  pure_lem,
}
use keys.Registry.{Directory, Package, Registry, Validated, valid, Thrown}
use keys.Registry.Documents.{with_id, parse-convert_iff}
use keys.Registry.Table.{distinct, delete_by_name}
use keys.Registry.Uniqueness.{remove-IsConsistent}
use keys.Registry.Adding.{get_unknown}
use keys.Registry.Methods.{
  AddPackageOptions, no_options, parse_rows, get_packages_from_db, remove_package_from_db,
  add_package_to_db, reindex, install_row, add_all, wipe, after_query,
}
use keys.Registry.Specification.{
  Call, adds, updates, replaces, removes, gets, reindexes, stored, finished, listed, forget,
  spec_add, drop, spec_replace, spec_update, spec_get, spec_add_all, after_add, spec_step, spec_run,
}
use keys.Registry.Client.{
  force, force_update, forget_ids, IsCatalog, Represents, stores, perform, run,
}
use keys.Registry.Refinement.Rows.{held, unnamed, dropped, rows-drop, select}
use keys.Registry.Refinement.Operations.{Rep, Refines, install_absent, install_updates}

module _ (uuid : ℕ → String) (unique : (m n : ℕ) → uuid m ≡ uuid n → m ≡ n)
    (catalog : String → Option Package) (dependencies : List String) (dir : Directory)
    (is_catalog : IsCatalog uuid catalog dependencies dir) where
  abbrev Stands : List String → Registry → Type 0
  Stands = Rep uuid unique catalog dependencies dir is_catalog

  abbrev Meets : {A : Type 0} → A × List String → A × Registry → Type 0
  Meets = Refines uuid unique catalog dependencies dir is_catalog

  abbrev Got : String → Registry → Type 0
  Got n s =
      (p : Package) × (doc : Package) × (catalog n ≡ some doc)
      × (forget p ≡ forget doc)
      × (get_packages_from_db n s ≡ (ok (valid (p ∷ [])), s))

  get_known :
      (n : String) (s : Registry) (ns : List String) → Stands ns s → includes ns n ≡ true → Got n s
  unfolding get_packages_from_db parse_rows ◌>>=◌
  get_known n s ns rep u =
      let (k, doc, e, found) =
        select uuid unique catalog dependencies dir is_catalog s.generated n ns s.rows rep.rows_of
          u in
      let (json, installed, same, readable) =
        held uuid unique catalog dependencies dir is_catalog n doc e in
      (
        with_id (uuid k) doc,
        doc,
        e,
        refl,
        rw (found, (parse-convert_iff (uuid k) json doc installed.1 installed.2).1 readable) refl,
      )

  get_absent :
      (n : String) (s : Registry) (ns : List String)
      → Stands ns s
      → includes ns n ≡ false
      → get_packages_from_db n s ≡ (ok (valid []), s)
  get_absent n s ns rep u = get_unknown n s (
      unnamed uuid unique catalog dependencies dir is_catalog s.generated n ns s.rows rep.rows_of u)

  add_at :
      (n : String) (o : AddPackageOptions) (s : Registry) (v : Validated (List Package))
      → get_packages_from_db n s ≡ (ok v, s)
      → add_package_to_db uuid n o s ≡ after_query uuid n o v s
  unfolding add_package_to_db ◌>>=◌
  add_at n o s v h = rw h refl

  add-Refines :
      (n : String) (s : Registry) (ns : List String)
      → Stands ns s
      → Meets (spec_add catalog dependencies n ns) (add_package_to_db uuid n no_options s)
  add-Refines n s ns rep = elim (Bool-cases (includes ns n)) [
    | inl u ↦
        let (p, doc, e, f, g) = get_known n s ns rep u in
        rw (u, add_at n no_options s (valid (p ∷ [])) g, pure_lem) (refl, rep)
    | inr u ↦
        rw (u, add_at n no_options s (valid []) (get_absent n s ns rep u))
          (install_absent uuid unique catalog dependencies dir is_catalog no_options n s ns refl u
            rep (catalog n) refl)
  ]

  update-Refines :
      (n : String) (s : Registry) (ns : List String)
      → Stands ns s
      → Meets
          (spec_update catalog dependencies (catalog n) n, ns)
          (add_package_to_db uuid n force_update s)
  update-Refines n s ns rep =
      let installs =
        install_updates uuid unique catalog dependencies dir is_catalog force_update n s ns refl rep
          (catalog n) refl in
      elim (Bool-cases (includes ns n)) [
        | inl u ↦
            let (p, doc, e, f, g) = get_known n s ns rep u in
            rw (add_at n force_update s (valid (p ∷ [])) g) installs
        | inr u ↦ rw (add_at n force_update s (valid []) (get_absent n s ns rep u)) installs
      ]

  remove-Stands :
      (n : String) (s : Registry) (ns : List String)
      → Stands ns s
      → Stands (drop catalog dependencies n ns) (record s { rows = delete_by_name n s.rows })
  unfolding remove_package_from_db ◌>>=◌
  remove-Stands n s ns rep = record {
    in_directory = rep.in_directory;
    is_consistent = (remove-IsConsistent n).after s rep.is_consistent;
    rows_of =
        rows-drop uuid unique catalog dependencies dir is_catalog s.generated n ns s.rows
          rep.rows_of;
  }

  drop_absent :
      (n : String) (ns : List String) → includes ns n ≡ false → drop catalog dependencies n ns ≡ ns
  drop_absent n [] u = refl
  drop_absent n (m ∷ ns) u = ground (arith, u, drop_absent n ns)

  remove_then :
      (n : String) (s : Registry)
      → (remove_package_from_db n >> install_row uuid n force) s
        ≡ install_row uuid n force (record s { rows = delete_by_name n s.rows })
  unfolding remove_package_from_db ◌>>=◌
  remove_then n s = refl

  replace-Refines :
      (n : String) (s : Registry) (ns : List String)
      → Stands ns s
      → Meets (spec_replace catalog dependencies n ns) (add_package_to_db uuid n force s)
  replace-Refines n s ns rep = elim (Bool-cases (includes ns n)) [
    | inl u ↦
        let (p, doc, e, f, g) = get_known n s ns rep u in
        rw (add_at n force s (valid (p ∷ [])) g, remove_then n s)
          (install_absent uuid unique catalog dependencies dir is_catalog force n _
            (drop catalog dependencies n ns) refl
            (dropped uuid unique catalog dependencies dir is_catalog n ns)
            (remove-Stands n s ns rep) (catalog n) refl)
    | inr u ↦
        rw (add_at n force s (valid []) (get_absent n s ns rep u), drop_absent n ns u)
          (install_absent uuid unique catalog dependencies dir is_catalog force n s ns refl u rep
            (catalog n) refl)
  ]

  abbrev found_in : String → Registry → Result Thrown (Validated (List Package))
  found_in n s = forget_ids (get_packages_from_db n s).0

  get-Refines :
      (n : String) (s : Registry) (ns : List String)
      → Stands ns s
      → Meets
          (ok (valid (spec_get catalog dependencies n ns)), ns)
          (found_in n s, (get_packages_from_db n s).1)
  get-Refines n s ns rep = elim (Bool-cases (includes ns n)) [
    | inl u ↦ let (p, doc, e, f, g) = get_known n s ns rep u in rw (g, u, e, f) (refl, rep)
    | inr u ↦ rw (get_absent n s ns rep u, u) (refl, rep)
  ]

  add_all_step :
      (d : String) (ds : List String) (s : Registry) (v : Result Thrown (Validated Unit))
      (ns : List String)
      → (add_package_to_db uuid d no_options s).0 ≡ v
      → Stands ns (add_package_to_db uuid d no_options s).1
      → (rest : Result Thrown (Unit {0}) × List String)
      → Meets rest (add_all uuid ds (add_package_to_db uuid d no_options s).1)
      → Meets (after_add catalog dependencies v ns rest) (add_all uuid (d ∷ ds) s)
  unfolding add_all ◌>>=◌
  add_all_step d ds s (ok v) ns e rep rest h =
      subst (Meets rest)
        (sym (bind-after (add_package_to_db uuid d no_options) (λ _. add_all uuid ds) s e)) h
  add_all_step d ds s (throws x) ns e rep rest h =
      subst (Meets (throws x, ns))
        (sym (bind-throws (add_package_to_db uuid d no_options) (λ _. add_all uuid ds) s e))
        (refl, rep)

  add_all-Refines :
      (ds : List String) (s : Registry) (ns : List String)
      → Stands ns s
      → Meets (spec_add_all catalog dependencies ds ns) (add_all uuid ds s)
  unfolding add_all spec_add_all
  add_all-Refines [] s ns rep = rw pure_lem (refl, rep)
  add_all-Refines (d ∷ ds) s ns rep =
      let (e, after) = add-Refines d s ns rep in
      add_all_step d ds s (spec_add catalog dependencies d ns).0
        (spec_add catalog dependencies d ns).1 e after
        (spec_add_all catalog dependencies ds (spec_add catalog dependencies d ns).1)
        (add_all-Refines ds (add_package_to_db uuid d no_options s).1
          (spec_add catalog dependencies d ns).1 after)

  reindex_all :
      (s : Registry) (ns : List String)
      → Stands ns s
      → reindex uuid s ≡ add_all uuid dependencies (record s { rows = [] })
  unfolding reindex wipe ◌>>=◌
  reindex_all s ns rep =
      reads-bind (λ s'. s'.directory.dependencies) (add_all uuid) (record s { rows = [] })
        (ap (λ d. d.dependencies) rep.in_directory ∙ is_catalog.0)

  empty-Stands :
      (s : Registry) (ns : List String) → Stands ns s → Stands [] (record s { rows = [] })
  unfolding distinct
  empty-Stands s ns rep = record {
    in_directory = rep.in_directory;
    is_consistent = refl;
    rows_of = tt;
  }

  removed :
      (n : String) (s : Registry)
      → remove_package_from_db n s ≡ (ok tt, record s { rows = delete_by_name n s.rows })
  unfolding remove_package_from_db ◌>>=◌
  removed n s = refl

  stores-Meets :
      (r : Result Thrown (Validated Unit) × List String)
      (t : Result Thrown (Validated Unit) × Registry)
      → Meets r t
      → Meets (stored r.0, r.1) (stores uuid t)
  stores-Meets r t (e, rep) = (ap stored e, rep)

  perform-Refines :
      (c : Call) (s : Registry) (ns : List String)
      → Stands ns s
      → Meets (spec_step catalog dependencies c ns) (perform uuid c s)
  unfolding perform spec_step
  perform-Refines (adds n) s ns rep = stores-Meets _ _ (add-Refines n s ns rep)
  perform-Refines (updates n) s ns rep = stores-Meets _ _ (update-Refines n s ns rep)
  perform-Refines (replaces n) s ns rep = stores-Meets _ _ (replace-Refines n s ns rep)
  perform-Refines (removes n) s ns rep = rw (removed n s) (refl, remove-Stands n s ns rep)
  perform-Refines (gets n) s ns rep =
      let (e, after) = get-Refines n s ns rep in (ap listed e, after)
  perform-Refines reindexes s ns rep =
      let (e, after) =
        add_all-Refines dependencies (record s { rows = [] }) [] (empty-Stands s ns rep) in
      rw (reindex_all s ns rep) (ap finished e, after)

  -- Where every folder of node_modules holds an add-on whose package.json is accepted, has the name of
  -- the folder and reads back once stored, no two ids are the same, and the table stands for a list of
  -- names: whatever calls to add (with or without `force` and `update`), remove, look up and reindex
  -- are made, each reply, ids aside, is the one that the specification gives from the list alone, and
  -- the table at the end stands for the list that the specification ends with.
  pub run-Refines :
      (cs : List Call) (s : Registry) (ns : List String)
      → Represents uuid catalog dependencies dir ns s
      → ((run uuid cs s).0 ≡ (spec_run catalog dependencies cs ns).0)
        × Represents uuid catalog dependencies dir
            (spec_run catalog dependencies cs ns).1
            (run uuid cs s).1
  unfolding run spec_run
  run-Refines [] s ns rep = (refl, rep)
  run-Refines (c ∷ cs) s ns rep =
      let (e, after) = perform-Refines c s ns rep in
      let (rest, end) =
        run-Refines cs (perform uuid c s).1 (spec_step catalog dependencies c ns).1 after in
      (rw (e, rest) refl, end)
