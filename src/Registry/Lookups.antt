-- ===== src/Registry/Lookups.antt =====
-- What is found in the registry after a reindex, in packages/@twokeys/addons/src/registry.ts.
use keys.Prelude.{
  ℕ, suc, ◌+◌, true, false, List, [], ◌∷◌, String, ◌≡◌, refl, ap, subst, inl, inr, Bool-cases, ◌==◌,
  eq_iff, length, ok, ◌>>=◌, ◌>>◌, bind-after, arith, includes,
}
use keys.Registry.{Registry, Directory, Package, PackageJson, PackageInDb, valid}
use keys.Registry.Document.{convert_package_for_db}
use keys.Registry.Documents.{is_readable, with_id, parse-convert_iff}
use keys.Registry.Table.{select_by_name}
use keys.Registry.Methods.{reindex, get_packages_from_db, parse_rows}
use keys.Registry.Adding.{IsInstalled}
use keys.Registry.Reindexing.{row_of, rows_of, AreInstalled, reindex_lem}

module _ (uuid : ℕ → String) (unique : (m n : ℕ) → uuid m ≡ uuid n → m ≡ n)
    (json : String → PackageJson) (doc : String → Package) (dir : Directory) where
  select_unlisted :
      (d : String) (n : ℕ) (ds : List String)
      → AreInstalled uuid unique json doc dir ds
      → includes ds d ≡ false
      → select_by_name d (rows_of uuid unique json doc n ds) ≡ []
  unfolding select_by_name convert_package_for_db
  select_unlisted d n [] i h = refl
  select_unlisted d n (e ∷ ds) i h =
      ground (arith, h, i.1, eq_iff (doc e).name d, eq_iff e d, select_unlisted d (suc n) ds i.3)

  -- The row of the dependency `d`, made as the k-th one, is the only one of its name.
  unfoldable IsListed : String → List PackageInDb → Type 0
  IsListed d rows =
      (k : ℕ) × (select_by_name d rows ≡ row_of uuid unique json doc k d ∷ [])
      × IsInstalled d dir (json d) (doc d)

  first-IsListed :
      (e : String) (n : ℕ) (ds : List String)
      → AreInstalled uuid unique json doc dir (e ∷ ds)
      → IsListed e (rows_of uuid unique json doc n (e ∷ ds))
  unfolding IsListed select_by_name convert_package_for_db
  first-IsListed e n ds i = (
    n,
    rw ((eq_iff (doc e).name e).1 i.1)
        (ap (λ l. row_of uuid unique json doc n e ∷ l) (select_unlisted e (suc n) ds i.3 i.2)),
    i.0,
  )

  select-IsListed :
      (d : String) (n : ℕ) (ds : List String)
      → AreInstalled uuid unique json doc dir ds
      → includes ds d ≡ true
      → IsListed d (rows_of uuid unique json doc n ds)
  unfolding IsListed select_by_name convert_package_for_db
  select-IsListed d n [] i h = absurd (ground (arith, h))
  select-IsListed d n (e ∷ ds) i h = elim (Bool-cases (e == d)) [
    | inl q ↦
        subst (λ d'. IsListed d' (rows_of uuid unique json doc n (e ∷ ds))) ((eq_iff e d).0 q)
          (first-IsListed e n ds i)
    | inr q ↦
        let (k, found, installed) = select-IsListed d (suc n) ds i.3 (ground (arith, h, q)) in
        (k, ground (arith, q, found, i.1, eq_iff (doc e).name d, eq_iff e d), installed)
  ]

module _ (uuid : ℕ → String) (unique : (m n : ℕ) → uuid m ≡ uuid n → m ≡ n)
    (json : String → PackageJson) (doc : String → Package) where
  find-IsListed :
      (s : Registry) (d : String)
      → is_readable (doc d) ≡ true
      → IsListed uuid unique json doc s.directory d s.rows
      → (k : ℕ) × ((get_packages_from_db d s).0 ≡ ok (valid (with_id (uuid k) (doc d) ∷ [])))
  unfolding IsListed get_packages_from_db parse_rows ◌>>=◌
  find-IsListed s d readable (k, found, installed) = (
    k,
    rw (found, (parse-convert_iff (uuid k) (json d) (doc d) installed.1 installed.2).1 readable),
  )

  -- Where every dependency is installed with an accepted package.json of its own name, and no two are
  -- the same, each one whose package.json has a version, a description and no empty entry point is
  -- found after a reindex, alone under its name, whatever the table held before.
  pub get-reindex :
      (s : Registry) (ds : List String) (d : String)
      → s.directory.dependencies ≡ ok ds
      → AreInstalled uuid unique json doc s.directory ds
      → includes ds d ≡ true
      → is_readable (doc d) ≡ true
      → (k : ℕ) × (((reindex uuid >> get_packages_from_db d) s).0
          ≡ ok (valid (with_id (uuid k) (doc d) ∷ [])))
  get-reindex s ds d listed i h readable =
      let e = reindex_lem uuid unique json doc s ds listed i in
      let after = select-IsListed uuid unique json doc s.directory d s.generated ds i h in
      let (k, found) =
        find-IsListed
          (record s {
            rows = rows_of uuid unique json doc s.generated ds;
            generated = s.generated + length ds;
          })
          d readable after in
      (
        k,
        rw (bind-after (reindex uuid) (λ _. get_packages_from_db d) s (ap (λ u. u.0) e), e, found),
      )
