-- ===== src/Registry/Uniqueness.antt =====
-- No method of packages/@twokeys/addons/src/registry.ts leaves two rows with one id or one name.
use keys.Prelude.{
  ℕ, Bool, true, false, List, [], ◌∷◌, String, ◌≡◌, refl, eq_iff, not, any, keep, any-append,
  any-keep-false, snoc, ◌>>=◌, Preserves, Preserves-bind, Preserves-reads, preserves_rules, arith,
}
use keys.Registry.{Registry, Package, PackageInDb, PackageJson, Validated, valid, invalid}
use keys.Registry.Table.{named, conflicts, distinct, delete_by_name, insert, update_by_name}
use keys.Registry.Methods.{
  AddPackageOptions, no_options, commit, run_statement, remove_package_from_db, uuidv4,
  store_validated, store_package, install_row, after_query, add_package_to_db, add_all, wipe,
  reindex, get_packages_from_db, read_package_json,
}

conflicts_comm : (a b : PackageInDb) → conflicts a b ≡ conflicts b a
conflicts_comm a b =
    ground (arith, eq_iff a.id b.id, eq_iff b.id a.id, eq_iff a.name b.name, eq_iff b.name a.name)

distinct-snoc :
    (row : PackageInDb) (rows : List PackageInDb)
    → any (conflicts row) rows ≡ false
    → distinct rows ≡ true
    → distinct (snoc rows row) ≡ true
unfolding distinct
distinct-snoc row [] h d = refl
distinct-snoc row (r ∷ rs) h d =
    ground
      (arith, any-append (conflicts r) rs (row ∷ []), conflicts_comm r row, distinct-snoc row rs)

distinct-keep :
    (p : PackageInDb → Bool) (rows : List PackageInDb)
    → distinct rows ≡ true
    → distinct (keep p rows) ≡ true
unfolding distinct
distinct-keep p [] d = refl
distinct-keep p (r ∷ rs) d = ground (arith, any-keep-false (conflicts r) p rs, distinct-keep p rs)

-- The table satisfies its constraints.
abbrev pub IsConsistent : Registry → Type 0
IsConsistent s = distinct s.rows ≡ true

insert-distinct :
    (row : PackageInDb) (s : Registry)
    → IsConsistent s
    → IsConsistent (commit (insert row s.rows) s).1
unfolding insert
insert-distinct row s h = ground (arith, distinct-snoc row s.rows)

update-distinct :
    (n : String) (row : PackageInDb) (s : Registry)
    → IsConsistent s
    → IsConsistent (commit (update_by_name n row s.rows) s).1
unfolding update_by_name
update-distinct n row s h = ground arith

run_statement-IsConsistent :
    (update : Bool) (row : PackageInDb) → Preserves IsConsistent (run_statement update row)
unfolding run_statement
run_statement-IsConsistent true row = record { after = update-distinct row.name row }
run_statement-IsConsistent false row = record { after = insert-distinct row }

pub remove-IsConsistent : (n : String) → Preserves IsConsistent (remove_package_from_db n)
unfolding remove_package_from_db delete_by_name ◌>>=◌
remove-IsConsistent n = record { after = λ s h. distinct-keep (λ row. not (named n row)) s.rows h }

get-IsConsistent : (n : String) → Preserves IsConsistent (get_packages_from_db n)
unfolding get_packages_from_db
get-IsConsistent n = search preserves_rules

read-IsConsistent : (n : String) → Preserves IsConsistent (read_package_json n)
unfolding read_package_json
read-IsConsistent n = search preserves_rules

module _ (uuid : ℕ → String) where
  uuidv4-IsConsistent : Preserves IsConsistent (uuidv4 uuid)
  unfolding uuidv4
  uuidv4-IsConsistent = record { after = λ s h. h }

  store_validated-IsConsistent :
      (o : AddPackageOptions) (json : PackageJson) (v : Validated Unit)
      → Preserves IsConsistent (store_validated uuid o json v)
  store_validated-IsConsistent o json (invalid m) = search preserves_rules
  store_validated-IsConsistent o json (valid _) =
      search (preserves_rules, uuidv4-IsConsistent, run_statement-IsConsistent)

  pub install_row-IsConsistent :
      (name : String) (o : AddPackageOptions) → Preserves IsConsistent (install_row uuid name o)
  unfolding install_row store_package
  install_row-IsConsistent name o =
      search (preserves_rules, read-IsConsistent, store_validated-IsConsistent)

  after_query-IsConsistent :
      (name : String) (o : AddPackageOptions) (v : Validated (List Package))
      → Preserves IsConsistent (after_query uuid name o v)
  after_query-IsConsistent name o (invalid m) = search preserves_rules
  after_query-IsConsistent name o (valid []) = install_row-IsConsistent name o
  after_query-IsConsistent name o (valid (_ ∷ _)) =
      search (preserves_rules, install_row-IsConsistent, remove-IsConsistent)

  pub adding-IsConsistent :
      (name : String) (o : AddPackageOptions)
      → Preserves IsConsistent (add_package_to_db uuid name o)
  unfolding add_package_to_db
  adding-IsConsistent name o = search (preserves_rules, get-IsConsistent, after_query-IsConsistent)

  -- Adding a package keeps ids and names unique, whatever the options, whether it returns or throws.
  pub add_package_to_db-IsConsistent :
      (name : String) (o : AddPackageOptions) (s : Registry)
      → IsConsistent s
      → IsConsistent (add_package_to_db uuid name o s).1
  add_package_to_db-IsConsistent name o = (adding-IsConsistent name o).after

  pub add_all-IsConsistent : (deps : List String) → Preserves IsConsistent (add_all uuid deps)
  unfolding add_all
  add_all-IsConsistent [] = search preserves_rules
  add_all-IsConsistent (dep ∷ deps) =
      Preserves-bind (add_package_to_db uuid dep no_options) (λ _. add_all uuid deps)
        (adding-IsConsistent dep no_options) (λ _. add_all-IsConsistent deps)

  -- Reindexing leaves a consistent table, also where it starts from one that is not, and where it
  -- throws.
  pub reindex-IsConsistent : (s : Registry) → IsConsistent (reindex uuid s).1
  unfolding reindex wipe distinct ◌>>=◌
  reindex-IsConsistent s =
      (Preserves-bind _ (add_all uuid) (Preserves-reads (λ s. s.directory.dependencies))
          add_all-IsConsistent).after
        (record s { rows = [] }) refl
