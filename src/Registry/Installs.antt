-- ===== src/Registry/Installs.antt =====
-- What install, update and createNewRegistry leave behind, in
-- packages/@twokeys/addons/src/registry.ts.
use keys.Prelude.{
  ℕ, suc, Bool, true, false, some, List, [], ◌∷◌, String, ◌≡◌, refl, any, ok, throws, ◌>>=◌, arith,
  if◌then◌else◌, pure, Preserves, Preserves-bind, Preserves-pure, preserves_rules,
}
use keys.Registry.{
  Registry, Directory, Package, PackageJson, PackageInDb, valid, invalid, Thrown, db_exists,
}
use keys.Registry.Document.{convert_package_for_db}
use keys.Registry.Table.{named, replace_named, update_by_name}
use keys.Registry.Uniqueness.{IsConsistent}
use keys.Registry.Methods.{
  get_packages_from_db, run_statement, read_package_json, uuidv4, store_package, install_row,
  add_package_to_db, add_all, wipe, reindex,
}
use keys.Registry.Loading.{load}
use keys.Registry.Installing.{
  Outside, ManagerOptions, package_string, run_npm, load_types, run_installs, install, Site,
  create_new_registry, no_failure,
}
use keys.Registry.Adding.{IsUnknown, IsInstalled, get_unknown}

replace-unknown :
    (n : String) (row : PackageInDb) (rows : List PackageInDb)
    → any (named n) rows ≡ false
    → replace_named n row rows ≡ rows
replace-unknown n row [] h = refl
replace-unknown n row (r ∷ rs) h = ground (arith, replace-unknown n row rs)

statement-unknown :
    (row : PackageInDb) (s : Registry)
    → IsConsistent s
    → any (named row.name) s.rows ≡ false
    → run_statement true row s ≡ (ok (valid tt), s)
unfolding run_statement update_by_name
statement-unknown row s d unknown = rw (replace-unknown row.name row s.rows unknown, d)

name-convert : (id : String) (doc : Package) → (convert_package_for_db id doc).name ≡ doc.name
unfolding convert_package_for_db
name-convert id doc = refl

module _ (uuid : ℕ → String) where
  -- Adding with `update` a package that is not in a consistent registry, and whose package.json is
  -- accepted and has the name of its folder, reports success and stores nothing: the rows stay as
  -- they were.
  pub update_unknown :
      (name : String) (force : Bool) (s : Registry) (json : PackageJson) (doc : Package)
      → IsInstalled name s.directory json doc
      → doc.name ≡ name
      → IsConsistent s
      → IsUnknown name s
      → add_package_to_db uuid name (record { force = force; update = true }) s
        ≡ (ok (valid tt), record s { generated = suc s.generated })
  unfolding add_package_to_db install_row store_package read_package_json uuidv4 ◌>>=◌
  update_unknown name force s json doc installed same d unknown = rw (
    get_unknown name s unknown,
    installed.0,
    installed.1,
    installed.2,
    statement-unknown (convert_package_for_db (uuid s.generated) doc)
        (record s { generated = suc s.generated }) d (rw (name-convert, same) unknown),
  )

  -- createNewRegistry where there is a database already, and no step fails, reports that, but has emptied the list of
  -- dependencies by then: the next reindex of that registry removes every package from the table.
  pub create_again_loses :
      (site : Site) (rows : List PackageInDb) (s : Registry)
      → site.database ≡ some rows
      → s.directory.dependencies ≡ (create_new_registry no_failure site).1.dependencies
      → ((create_new_registry no_failure site).0 ≡ ok (invalid db_exists))
        × ((create_new_registry no_failure site).1.database ≡ some rows)
        × ((reindex uuid s).0 ≡ ok tt)
        × ((reindex uuid s).1.rows ≡ [])
  unfolding create_new_registry reindex wipe add_all ◌>>=◌
  create_again_loses site rows s exists same = ground arith

module _ (out : Outside) where
  module _ (s : Registry) where
    load_keeps : (name t : String) → Preserves (λ s'. s' ≡ s) (load out.import_entry name t)
    unfolding load get_packages_from_db
    load_keeps name t = search preserves_rules

    load_types_keep :
        (name : String) (ts : List String) → Preserves (λ s'. s' ≡ s) (load_types out name ts)
    unfolding load_types
    load_types_keep name [] = search preserves_rules
    load_types_keep name (t ∷ ts) =
        Preserves-bind (load out.import_entry name t)
          (λ a. load_types out name ts >>= λ rest. pure (a ∷ rest)) (load_keeps name t)
          (λ a.
            Preserves-bind (load_types out name ts) (λ rest. pure (a ∷ rest))
              (load_types_keep name ts) (λ rest. Preserves-pure (a ∷ rest)))

  -- Where npm succeeds for a package that is not local, the package is added and reads back, and
  -- one of the loads of the first add-on fails, `install` throws that error after the package has
  -- been added: the registry is the one that adding left, with the new row, and no install()
  -- function has been called.
  pub install_load_fails :
      (name : String) (o : ManagerOptions) (s s' : Registry) (dir : Directory) (p : Package)
      (ps : List Package) (e : Thrown)
      → out.npm
          (if o.use_link then "link" else "install")
          (package_string name o.version)
          o.force
          s.directory
        ≡ (ok tt, dir)
      → o.is_local ≡ false
      → add_package_to_db out.uuid name
          (record { force = o.force; update = false })
          (record s { directory = dir })
        ≡ (ok (valid tt), s')
      → (get_packages_from_db name s').0 ≡ ok (valid (p ∷ ps))
      → (load_types out p.name p.types s').0 ≡ throws e
      → install out name o s ≡ (throws e, s')
  unfolding install run_npm run_installs get_packages_from_db ◌>>=◌
  install_load_fails name o s s' dir p ps e npm plain adds known fails =
      rw (npm, plain, adds, known, fails) (rw ((load_types_keep s' p.name p.types).after s' refl))
