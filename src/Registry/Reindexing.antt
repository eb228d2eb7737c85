-- ===== src/Registry/Reindexing.antt =====
-- What reindex leaves in the registry, in packages/@twokeys/addons/src/registry.ts.
use keys.Prelude.{
  ℕ, suc, ◌+◌, ◌≤◌, true, false, List, [], ◌∷◌, ◌++◌, String, ◌≡◌, refl, ◌∙◌, ◌==◌, eq_iff, eq_refl,
  any, any-append, length, ok, ◌>>=◌, reads-bind, arith, includes,
}
use mathlib.Core.List.{append_assoc, append-nil}
use native.Mathlib.Nat.{add-zero, suc-add, add-suc}
use keys.Registry.{Registry, Directory, Package, PackageJson, PackageInDb}
use keys.Registry.Document.{convert_package_for_db}
use keys.Registry.Table.{named, conflicts}
use keys.Registry.Methods.{add_all, wipe, reindex}
use keys.Registry.Adding.{IsInstalled, new_row, added, add_new}

pub no_conflict :
    (row : PackageInDb) (rows : List PackageInDb)
    → any (λ r. row.id == r.id) rows ≡ false
    → any (named row.name) rows ≡ false
    → any (conflicts row) rows ≡ false
no_conflict row [] i n = refl
no_conflict row (r ∷ rs) i n =
    ground (arith, no_conflict row rs, eq_iff row.name r.name, eq_iff r.name row.name)

module _ (uuid : ℕ → String) (unique : (m n : ℕ) → uuid m ≡ uuid n → m ≡ n)
    (json : String → PackageJson) (doc : String → Package) where
  -- The row that the dependency `d` gets as the n-th one that is made.
  abbrev pub row_of : ℕ → String → PackageInDb
  row_of n d = convert_package_for_db (uuid n) (doc d)

  abbrev pub rows_of : ℕ → List String → List PackageInDb
  rows_of n [] = []
  rows_of n (d ∷ ds) = row_of n d ∷ rows_of (suc n) ds

  -- Each dependency is installed with an accepted package.json that names its own folder, and no
  -- two are the same.
  abbrev pub AreInstalled : Directory → List String → Type 0
  AreInstalled dir [] = Unit
  AreInstalled dir (d ∷ ds) =
      IsInstalled d dir (json d) (doc d)
      × ((doc d).name ≡ d)
      × (includes ds d ≡ false)
      × AreInstalled dir ds

  -- No row has an id that is yet to be made, and none is named like a dependency to come.
  record IsAhead (s : Registry) (ds : List String) : Type 0 where
    unissued : (k : ℕ) → s.generated ≤ k → any (λ r. uuid k == r.id) s.rows ≡ false
    unnamed : (d : String) → includes ds d ≡ true → any (named d) s.rows ≡ false

  added-IsAhead :
      (s : Registry) (d : String) (ds : List String)
      → (doc d).name ≡ d
      → includes ds d ≡ false
      → IsAhead s (d ∷ ds)
      → IsAhead (added uuid s (doc d)) ds
  unfolding convert_package_for_db
  added-IsAhead s d ds same once ahead = record {
    unissued = λ k le. ground (
      arith,
      any-append (λ r. uuid k == r.id) s.rows (new_row uuid s (doc d) ∷ []),
      ahead.unissued k,
      eq_iff (uuid k) (uuid s.generated),
      unique k s.generated,
    );
    unnamed = λ e listed. ground (
      arith,
      any-append (named e) s.rows (new_row uuid s (doc d) ∷ []),
      ahead.unnamed e,
      eq_iff (doc d).name e,
      eq_iff d e,
    );
  }

  fresh_row :
      (s : Registry) (d : String) (ds : List String)
      → (doc d).name ≡ d
      → IsAhead s (d ∷ ds)
      → any (conflicts (new_row uuid s (doc d))) s.rows ≡ false
  unfolding convert_package_for_db
  fresh_row s d ds same ahead =
      no_conflict (new_row uuid s (doc d)) s.rows (ahead.unissued s.generated (omega arith))
        (rw same (ahead.unnamed d (ground (arith, eq_refl d))))

  -- The loop adds one row for each dependency, in order.
  add_all_lem :
      (s : Registry) (ds : List String)
      → AreInstalled s.directory ds
      → IsAhead s ds
      → add_all uuid ds s ≡ (
        ok tt,
        record s { rows = s.rows ++ rows_of s.generated ds; generated = s.generated + length ds },
      )
  unfolding add_all ◌>>=◌
  add_all_lem s [] all ahead = rw (append-nil, add-zero)
  add_all_lem s (d ∷ ds) (installed, same, once, all) ahead =
      rw
        (add_new uuid d s (json d) (doc d) installed (ahead.unnamed d (ground (arith, eq_refl d)))
          (fresh_row s d ds same ahead))
        (rw (add_all_lem (added uuid s (doc d)) ds all (added-IsAhead s d ds same once ahead))
          (rw (append_assoc, suc-add, add-suc)))

  -- Where every dependency is installed with an accepted package.json of its own name, and no two
  -- are the same, `reindex` returns, and the table holds exactly one row for each dependency, in
  -- their order, with the next ids, whatever the table held before.
  pub reindex_lem :
      (s : Registry) (ds : List String)
      → s.directory.dependencies ≡ ok ds
      → AreInstalled s.directory ds
      → reindex uuid s
        ≡ (ok tt, record s { rows = rows_of s.generated ds; generated = s.generated + length ds })
  unfolding reindex wipe ◌>>=◌
  reindex_lem s ds listed all =
      reads-bind (λ s'. s'.directory.dependencies) (add_all uuid) (record s { rows = [] }) listed
      ∙ add_all_lem (record s { rows = [] }) ds all
          (record { unissued = λ k le. refl; unnamed = λ d h. refl })
