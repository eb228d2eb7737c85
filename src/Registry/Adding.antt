-- ===== src/Registry/Adding.antt =====
-- What addPackageToDB does on each of its ways through, in
-- packages/@twokeys/addons/src/registry.ts.
use keys.Prelude.{
  ℕ, suc, true, false, List, [], ◌∷◌, String, ◌≡◌, eq_iff, any, keep-append, keep-eq-nil, snoc, ok,
  ◌>>=◌, ◌>>◌,
}
use keys.Registry.{
  Registry, Directory, found, Package, PackageJson, PackageInDb, Message, already_in_registry,
  valid, invalid,
}
use keys.Registry.Document.{
  validate_package_json, convert_package_json_to_db_document, convert_package_for_db,
}
use keys.Registry.Table.{named, conflicts, select_by_name, delete_by_name, insert}
use keys.Registry.Documents.{is_readable, with_id, parse-convert_iff, parse-convert_refused}
use keys.Registry.Methods.{
  AddPackageOptions, no_options, parse_rows, get_packages_from_db, remove_package_from_db,
  run_statement, read_package_json, uuidv4, store_package, install_row, add_package_to_db,
}

-- The registry holds no row of this name.
abbrev pub IsUnknown : String → Registry → Type 0
IsUnknown name s = any (named name) s.rows ≡ false

pub get_unknown :
    (name : String) (s : Registry)
    → IsUnknown name s
    → get_packages_from_db name s ≡ (ok (valid []), s)
unfolding get_packages_from_db select_by_name parse_rows ◌>>=◌
get_unknown name s h = rw (keep-eq-nil (named name) s.rows h)

-- An installed package of this name whose package.json is accepted, and what it converts to.
abbrev pub IsInstalled : String → Directory → PackageJson → Package → Type 0
IsInstalled name dir json doc =
    (dir.node_modules name ≡ found json)
    × (validate_package_json json ≡ ok (valid tt))
    × (convert_package_json_to_db_document json ≡ ok doc)

module _ (uuid : ℕ → String) where
  -- The row that adding a package makes of its converted package.json.
  abbrev pub new_row : Registry → Package → PackageInDb
  new_row s doc = convert_package_for_db (uuid s.generated) doc

  abbrev pub added : Registry → Package → Registry
  added s doc = record s { rows = snoc s.rows (new_row s doc); generated = suc s.generated }

  module _ (name : String) (s : Registry) (json : PackageJson) (doc : Package)
      (installed : IsInstalled name s.directory json doc) where
    store_new :
        any (conflicts (new_row s doc)) s.rows ≡ false
        → install_row uuid name no_options s ≡ (ok (valid tt), added s doc)
    unfolding install_row store_package read_package_json uuidv4 run_statement insert ◌>>=◌
    store_new fresh = rw (installed.0, installed.1, installed.2, fresh)

    -- A package that is not in the registry is added as one new row at the end, with the next id,
    -- where its package.json is accepted and no row has that id or the name in it.
    pub add_new :
        IsUnknown name s
        → any (conflicts (new_row s doc)) s.rows ≡ false
        → add_package_to_db uuid name no_options s ≡ (ok (valid tt), added s doc)
    unfolding add_package_to_db ◌>>=◌
    add_new unknown fresh = rw (get_unknown name s unknown, store_new fresh)

    select_added :
        IsUnknown name s
        → doc.name ≡ name
        → select_by_name name (added s doc).rows ≡ new_row s doc ∷ []
    unfolding select_by_name convert_package_for_db
    select_added unknown same =
        rw
          (
            keep-append (named name) s.rows (new_row s doc ∷ []),
            keep-eq-nil (named name) s.rows unknown,
          )
          (rw ((eq_iff doc.name name).1 same))

    -- Adding a package that is not in the registry and then looking it up finds the package of its
    -- package.json, with its new id, and it alone; for an accepted package.json that has a
    -- version, a description and no empty entry point, and whose name is that of its folder, where
    -- no row has the new id or the name.
    pub get-add :
        IsUnknown name s
        → any (conflicts (new_row s doc)) s.rows ≡ false
        → doc.name ≡ name
        → is_readable doc ≡ true
        → (add_package_to_db uuid name no_options >> get_packages_from_db name) s
          ≡ (ok (valid (with_id (uuid s.generated) doc ∷ [])), added s doc)
    unfolding get_packages_from_db parse_rows ◌>>=◌
    get-add unknown fresh same readable = rw (
      add_new unknown fresh,
      select_added unknown same,
      (parse-convert_iff (uuid s.generated) json doc installed.1 installed.2).1 readable,
    )

    stuck_get :
        IsUnknown name s
        → doc.name ≡ name
        → is_readable doc ≡ false
        → (m : Message) × (get_packages_from_db name (added s doc) ≡ (ok (invalid m), added s doc))
    unfolding get_packages_from_db parse_rows ◌>>=◌
    stuck_get unknown same unreadable =
        let (m, refused) =
          parse-convert_refused (uuid s.generated) json doc installed.1 installed.2 unreadable in
        (m, rw (select_added unknown same, refused))

    -- A package that is not in the registry, and whose package.json has the name of its folder and
    -- is accepted but not readable (no version, no description, or an empty entry point), is added
    -- with success, where no row has the new id or the name. From then on adding it fails with a
    -- message and changes nothing, whatever the options, `force` and `update` included.
    pub add_stuck :
        IsUnknown name s
        → any (conflicts (new_row s doc)) s.rows ≡ false
        → doc.name ≡ name
        → is_readable doc ≡ false
        → (add_package_to_db uuid name no_options s ≡ (ok (valid tt), added s doc))
          × (m : Message) × ((o : AddPackageOptions)
              → add_package_to_db uuid name o (added s doc) ≡ (ok (invalid m), added s doc))
    unfolding add_package_to_db ◌>>=◌
    add_stuck unknown fresh same unreadable =
        let (m, stuck) = stuck_get unknown same unreadable in
        (unfold add_package_to_db in add_new unknown fresh, m, λ o. rw stuck)

  -- Adding a package that is in the registry and reads back, without `force`, changes nothing.
  pub add_again :
      (name : String) (o : AddPackageOptions) (s : Registry) (p : Package) (ps : List Package)
      → (get_packages_from_db name s).0 ≡ ok (valid (p ∷ ps))
      → o.force ≡ false
      → add_package_to_db uuid name o s ≡ (ok (invalid already_in_registry), s)
  unfolding add_package_to_db get_packages_from_db ◌>>=◌
  add_again name o s p ps known plain = rw (known, plain)

  -- For a package that is in the registry and reads back, `force` without `update` deletes the
  -- rows of the name before the package.json is looked at: if that is then refused, the package is
  -- gone from the registry, and the method returns the message.
  pub force_loses :
      (name : String) (s : Registry) (p : Package) (ps : List Package) (json : PackageJson)
      (m : Message)
      → (get_packages_from_db name s).0 ≡ ok (valid (p ∷ ps))
      → s.directory.node_modules name ≡ found json
      → validate_package_json json ≡ ok (invalid m)
      → add_package_to_db uuid name (record { force = true; update = false }) s
        ≡ (ok (invalid m), record s { rows = delete_by_name name s.rows })
  unfolding add_package_to_db get_packages_from_db remove_package_from_db install_row store_package
      read_package_json ◌>>=◌
  force_loses name s p ps json m known reads refused = rw (known, reads, refused)
