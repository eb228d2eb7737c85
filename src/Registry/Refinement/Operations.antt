-- ===== src/Registry/Refinement/Operations.antt =====
-- Each method of packages/@twokeys/addons/src/registry.ts against its specification.
use keys.Prelude.{
  ℕ, suc, true, false, Option, none, some, List, String, ◌≡◌, refl, sym, ap, subst, ◌∙◌, ◌==◌,
  includes, any, snoc, ok, throws, arith, ◌>>=◌,
}
use keys.Registry.{Directory, missing, Package, PackageJson, Registry, valid, not_installed}
use keys.Registry.Document.{convert_package_for_db}
use keys.Registry.Table.{named, conflicts, distinct, insert, update_by_name, replace_named}
use keys.Registry.Uniqueness.{IsConsistent, install_row-IsConsistent}
use keys.Registry.Reindexing.{no_conflict}
use keys.Registry.Adding.{IsInstalled, new_row, added}
use keys.Registry.Methods.{
  AddPackageOptions, install_row, store_package, read_package_json, uuidv4, run_statement,
}
use keys.Registry.Specification.{spec_install, spec_update}
use keys.Registry.Client.{Holds, IsCatalog, IsRowOf, AreRowsOf, Represents}
use keys.Registry.Refinement.Rows.{
  held, unnamed, unissued, later, rows-snoc, rows-replace, distinct-replace,
}

module _ (uuid : ℕ → String) (n : String) (o : AddPackageOptions) (s : Registry) where
  install_missing :
      s.directory.node_modules n ≡ missing → install_row uuid n o s ≡ (throws (not_installed n), s)
  unfolding install_row store_package read_package_json ◌>>=◌
  install_missing h = rw h refl

  updated : Package → Registry
  updated doc = record s {
    rows = replace_named doc.name (new_row uuid s doc) s.rows;
    generated = suc s.generated;
  }

  module _ (json : PackageJson) (doc : Package)
      (installed : IsInstalled n s.directory json doc) where
    install_insert :
        o.update ≡ false
        → any (conflicts (new_row uuid s doc)) s.rows ≡ false
        → install_row uuid n o s ≡ (ok (valid tt), added uuid s doc)
    unfolding install_row store_package read_package_json uuidv4 run_statement insert ◌>>=◌
    install_insert plain fresh = rw (installed.0, installed.1, installed.2, plain, fresh) refl

    install_update :
        o.update ≡ true
        → distinct (replace_named doc.name (new_row uuid s doc) s.rows) ≡ true
        → install_row uuid n o s ≡ (ok (valid tt), updated doc)
    unfolding install_row store_package read_package_json uuidv4 run_statement update_by_name
        convert_package_for_db updated ◌>>=◌
    install_update chosen fresh = rw (installed.0, installed.1, installed.2, chosen, fresh) refl

module _ (uuid : ℕ → String) (unique : (m n : ℕ) → uuid m ≡ uuid n → m ≡ n)
    (catalog : String → Option Package) (dependencies : List String) (dir : Directory)
    (is_catalog : IsCatalog uuid catalog dependencies dir) where
  abbrev pub Rep : List String → Registry → Type 0
  Rep = Represents uuid catalog dependencies dir

  -- The reply is the specification's, and the registry stands for its names.
  abbrev pub Refines : {A : Type 0} → A × List String → A × Registry → Type 0
  Refines r t = (t.0 ≡ r.0) × Rep r.1 t.1

  at : {A : Type 0} (r : A × List String) (t u : A × Registry) → t ≡ u → Refines r u → Refines r t
  at r t u e h = subst (λ v. Refines r v) (sym e) h

  there :
      (n : String) (s : Registry) (ns : List String)
      → Rep ns s
      → catalog n ≡ none
      → s.directory.node_modules n ≡ missing
  there n s ns rep e =
      ap (λ d. d.node_modules n) rep.in_directory
      ∙ subst (Holds uuid catalog dependencies dir n) e (is_catalog.1 n)

  module _ (n : String) (s : Registry) (ns : List String) (rep : Rep ns s) (doc : Package)
      (e : catalog n ≡ some doc) where
    json_of : PackageJson
    json_of = (held uuid unique catalog dependencies dir is_catalog n doc e).0

    its-IsInstalled : IsInstalled n s.directory json_of doc
    unfolding json_of
    its-IsInstalled =
        subst (λ d. IsInstalled n d json_of doc) (sym rep.in_directory)
          (held uuid unique catalog dependencies dir is_catalog n doc e).1

    same_name : doc.name ≡ n
    same_name = (held uuid unique catalog dependencies dir is_catalog n doc e).2

    new_id : any (λ r. uuid s.generated == r.id) s.rows ≡ false
    new_id =
        unissued uuid unique catalog dependencies dir is_catalog s.generated ns s.rows rep.rows_of

    new_rows : AreRowsOf uuid catalog dependencies dir (suc s.generated) ns s.rows
    new_rows =
        later uuid unique catalog dependencies dir is_catalog s.generated ns s.rows rep.rows_of

    new_row_of : IsRowOf uuid catalog dependencies dir (suc s.generated) n (new_row uuid s doc)
    new_row_of = (s.generated, doc, omega arith, e, refl)

    no_conflicts : includes ns n ≡ false → any (conflicts (new_row uuid s doc)) s.rows ≡ false
    unfolding convert_package_for_db
    no_conflicts absent = no_conflict (new_row uuid s doc) s.rows new_id (
        ap (λ m. any (named m) s.rows) same_name
        ∙ unnamed uuid unique catalog dependencies dir is_catalog s.generated n ns s.rows
            rep.rows_of absent)

    inserts :
        (o : AddPackageOptions)
        → o.update ≡ false
        → includes ns n ≡ false
        → Refines (ok (valid tt), snoc ns n) (install_row uuid n o s)
    inserts o plain absent =
        let q = install_insert uuid n o s json_of doc its-IsInstalled plain (no_conflicts absent) in
        at _ _ _ q (
          refl,
          record {
            in_directory = rep.in_directory;
            is_consistent =
                subst (λ t. IsConsistent t.1) q
                  ((install_row-IsConsistent uuid n o).after s rep.is_consistent);
            rows_of =
                rows-snoc uuid unique catalog dependencies dir is_catalog (suc s.generated) n
                  (new_row uuid s doc) ns s.rows new_rows new_row_of absent;
          },
        )

    replaced : distinct (replace_named doc.name (new_row uuid s doc) s.rows) ≡ true
    unfolding convert_package_for_db
    replaced = distinct-replace doc.name (new_row uuid s doc) s.rows refl new_id rep.is_consistent

    changes :
        (o : AddPackageOptions)
        → o.update ≡ true
        → Refines (ok (valid tt), ns) (install_row uuid n o s)
    unfolding updated
    changes o chosen =
        at _ _ _ (install_update uuid n o s json_of doc its-IsInstalled chosen replaced) (
          refl,
          record {
            in_directory = rep.in_directory;
            is_consistent = replaced;
            rows_of =
                subst
                  (λ m.
                    AreRowsOf uuid catalog dependencies dir (suc s.generated) ns
                      (replace_named m (new_row uuid s doc) s.rows))
                  (sym same_name)
                  (rows-replace uuid unique catalog dependencies dir is_catalog (suc s.generated) n
                    (new_row uuid s doc) ns s.rows new_rows new_row_of);
          },
        )

  pub install_absent :
      (o : AddPackageOptions) (n : String) (s : Registry) (ns : List String)
      → o.update ≡ false
      → includes ns n ≡ false
      → Rep ns s
      → (c : Option Package) → catalog n ≡ c
      → Refines (spec_install catalog dependencies c n ns) (install_row uuid n o s)
  install_absent o n s ns plain absent rep none e =
      at _ _ _ (install_missing uuid n o s (there n s ns rep e)) (refl, rep)
  install_absent o n s ns plain absent rep (some doc) e = inserts n s ns rep doc e o plain absent

  pub install_updates :
      (o : AddPackageOptions) (n : String) (s : Registry) (ns : List String)
      → o.update ≡ true
      → Rep ns s
      → (c : Option Package) → catalog n ≡ c
      → Refines (spec_update catalog dependencies c n, ns) (install_row uuid n o s)
  install_updates o n s ns chosen rep none e =
      at _ _ _ (install_missing uuid n o s (there n s ns rep e)) (refl, rep)
  install_updates o n s ns chosen rep (some doc) e = changes n s ns rep doc e o chosen
