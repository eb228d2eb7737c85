-- ===== src/Registry/Refinement/Rows.antt =====
-- The rows that stand for a list of names, in the table of packages/@twokeys/addons/src/registry.ts.
use keys.Prelude.{
  ℕ, suc, Bool, true, false, Option, some, List, [], ◌∷◌, String, ◌≡◌, refl, sym, ap, subst, ◌∙◌,
  ◌==◌, eq_iff, includes, any, keep-eq-nil, ◌||◌, snoc, Bool-cases, inl, inr, arith,
}
use keys.Registry.{Directory, Package, PackageInDb}
use keys.Registry.Document.{convert_package_for_db}
use keys.Registry.Table.{named, conflicts, distinct, select_by_name, delete_by_name, replace_named}
use keys.Registry.Specification.{drop}
use keys.Registry.Reindexing.{no_conflict}
use keys.Registry.Removing.{unnamed_after}
use keys.Registry.Client.{Holds, IsCatalog, IsRowOf, AreRowsOf}

module _ (uuid : ℕ → String) (unique : (m n : ℕ) → uuid m ≡ uuid n → m ≡ n)
    (catalog : String → Option Package) (dependencies : List String) (dir : Directory)
    (is_catalog : IsCatalog uuid catalog dependencies dir) where
  abbrev RowOf : ℕ → String → PackageInDb → Type 0
  RowOf = IsRowOf uuid catalog dependencies dir

  abbrev RowsOf : ℕ → List String → List PackageInDb → Type 0
  RowsOf = AreRowsOf uuid catalog dependencies dir

  pub held :
      (n : String) (doc : Package)
      → catalog n ≡ some doc
      → Holds uuid catalog dependencies dir n (some doc)
  held n doc e = subst (Holds uuid catalog dependencies dir n) e (is_catalog.1 n)

  row_name : (g : ℕ) (n : String) (r : PackageInDb) → RowOf g n r → r.name ≡ n
  unfolding convert_package_for_db
  row_name g n r (k, doc, lt, e, q) = ap (λ t. t.name) q ∙ (held n doc e).2

  pub unnamed :
      (g : ℕ) (n : String) (ns : List String) (rs : List PackageInDb)
      → RowsOf g ns rs
      → includes ns n ≡ false
      → any (named n) rs ≡ false
  unnamed g n [] [] h u = refl
  unnamed g n [] (r ∷ rs) h u = absurd h
  unnamed g n (m ∷ ns) [] h u = absurd h
  unnamed g n (m ∷ ns) (r ∷ rs) (here, once, rest) u =
      ground (arith, row_name g m r here, eq_iff r.name n, eq_iff m n, unnamed g n ns rs rest)

  -- No row has the id that is made next.
  pub unissued :
      (g : ℕ) (ns : List String) (rs : List PackageInDb)
      → RowsOf g ns rs
      → any (λ r. uuid g == r.id) rs ≡ false
  unfolding convert_package_for_db
  unissued g [] [] h = refl
  unissued g [] (r ∷ rs) h = absurd h
  unissued g (m ∷ ns) [] h = absurd h
  unissued g (m ∷ ns) (r ∷ rs) ((k, doc, lt, e, q), once, rest) = ground (
    arith,
    ap (λ t. t.id) q,
    eq_iff (uuid g) r.id,
    eq_iff (uuid g) (uuid k),
    unique g k,
    unissued g ns rs rest,
  )

  pub later :
      (g : ℕ) (ns : List String) (rs : List PackageInDb) → RowsOf g ns rs → RowsOf (suc g) ns rs
  later g [] [] h = tt
  later g [] (r ∷ rs) h = h
  later g (m ∷ ns) [] h = h
  later g (m ∷ ns) (r ∷ rs) ((k, doc, lt, e, q), once, rest) =
      ((k, doc, omega arith, e, q), once, later g ns rs rest)

  includes-drop :
      (n m : String) (ns : List String)
      → includes ns m ≡ false
      → includes (drop catalog dependencies n ns) m ≡ false
  includes-drop n m [] h = refl
  includes-drop n m (x ∷ ns) h = ground (arith, includes-drop n m ns)

  pub dropped :
      (n : String) (ns : List String) → includes (drop catalog dependencies n ns) n ≡ false
  dropped n [] = refl
  dropped n (x ∷ ns) = ground (arith, dropped n ns)

  pub rows-drop :
      (g : ℕ) (n : String) (ns : List String) (rs : List PackageInDb)
      → RowsOf g ns rs
      → RowsOf g (drop catalog dependencies n ns) (delete_by_name n rs)
  unfolding delete_by_name
  rows-drop g n [] [] h = tt
  rows-drop g n [] (r ∷ rs) h = absurd h
  rows-drop g n (m ∷ ns) [] h = absurd h
  rows-drop g n (m ∷ ns) (r ∷ rs) (here, once, rest) = elim (Bool-cases (m == n)) [
    | inl e ↦ rw (ap (λ x. x == n) (row_name g m r here) ∙ e, e) (rows-drop g n ns rs rest)
    | inr e ↦
        rw (ap (λ x. x == n) (row_name g m r here) ∙ e, e)
          (here, includes-drop n m ns once, rows-drop g n ns rs rest)
  ]

  includes-snoc :
      (n m : String) (ns : List String)
      → includes ns m ≡ false
      → (n == m) ≡ false
      → includes (snoc ns n) m ≡ false
  includes-snoc n m [] h e = rw e refl
  includes-snoc n m (x ∷ ns) h e = ground (arith, includes-snoc n m ns)

  pub rows-snoc :
      (g : ℕ) (n : String) (r : PackageInDb) (ns : List String) (rs : List PackageInDb)
      → RowsOf g ns rs
      → RowOf g n r
      → includes ns n ≡ false
      → RowsOf g (snoc ns n) (snoc rs r)
  rows-snoc g n r [] [] h k u = (k, refl, tt)
  rows-snoc g n r [] (q ∷ rs) h k u = absurd h
  rows-snoc g n r (m ∷ ns) [] h k u = absurd h
  rows-snoc g n r (m ∷ ns) (q ∷ rs) (here, once, rest) k u =
      let differs : ((n == m) ≡ false) = ground (arith, u, eq_iff n m, eq_iff m n) in
      (here, includes-snoc n m ns once differs, rows-snoc g n r ns rs rest k (ground (arith, u)))

  -- The one row that is selected by a name which is there.
  abbrev pub Selected : String → List PackageInDb → Type 0
  Selected n rs =
      (k : ℕ) × (doc : Package) × (catalog n ≡ some doc)
      × (select_by_name n rs ≡ convert_package_for_db (uuid k) doc ∷ [])

  select_first :
      (g : ℕ) (m : String) (r : PackageInDb) (ns : List String) (rs : List PackageInDb)
      → RowsOf g (m ∷ ns) (r ∷ rs)
      → Selected m (r ∷ rs)
  unfolding select_by_name
  select_first g m r ns rs ((k, doc, lt, e, q), once, rest) =
      let same : ((r.name == m) ≡ true) = (eq_iff r.name m).1 (row_name g m r (k, doc, lt, e, q)) in
      (
        k,
        doc,
        e,
        rw (same, keep-eq-nil (named m) rs (unnamed g m ns rs rest once)) (ap (λ t. t ∷ []) q),
      )

  pub select :
      (g : ℕ) (n : String) (ns : List String) (rs : List PackageInDb)
      → RowsOf g ns rs
      → includes ns n ≡ true
      → Selected n rs
  unfolding select_by_name
  select g n [] rs h u = absurd (ground (arith, u))
  select g n (m ∷ ns) [] h u = absurd h
  select g n (m ∷ ns) (r ∷ rs) h u = elim (Bool-cases (m == n)) [
    | inl e ↦ subst (λ x. Selected x (r ∷ rs)) ((eq_iff m n).0 e) (select_first g m r ns rs h)
    | inr e ↦
        let (k, doc, c, q) = select g n ns rs h.2 (ground (arith, u, e)) in
        (k, doc, c, rw (ap (λ x. x == n) (row_name g m r h.0) ∙ e) q)
  ]

  pub rows-replace :
      (g : ℕ) (n : String) (row : PackageInDb) (ns : List String) (rs : List PackageInDb)
      → RowsOf g ns rs
      → RowOf g n row
      → RowsOf g ns (replace_named n row rs)
  rows-replace g n row [] [] h k = tt
  rows-replace g n row [] (r ∷ rs) h k = absurd h
  rows-replace g n row (m ∷ ns) [] h k = absurd h
  rows-replace g n row (m ∷ ns) (r ∷ rs) (here, once, rest) k = elim (Bool-cases (m == n)) [
    | inl e ↦ rw (ap (λ x. x == n) (row_name g m r here) ∙ e) (
      subst (λ x. RowOf g x row) (sym ((eq_iff m n).0 e)) k,
      once,
      rows-replace g n row ns rs rest k,
    )
    | inr e ↦
        rw (ap (λ x. x == n) (row_name g m r here) ∙ e)
          (here, once, rows-replace g n row ns rs rest k)
  ]

neither : (a b : Bool) → (a || b) ≡ false → (a ≡ false) × (b ≡ false)
neither a b h = ground (arith, h)

replace_unnamed :
    (n : String) (row : PackageInDb) (rs : List PackageInDb)
    → any (named n) rs ≡ false
    → replace_named n row rs ≡ rs
replace_unnamed n row [] h = refl
replace_unnamed n row (r ∷ rs) h =
    let (here, rest) = neither (named n r) (any (named n) rs) h in
    rw (here, replace_unnamed n row rs rest) refl

any-replace :
    (r row : PackageInDb) (n : String) (rs : List PackageInDb)
    → conflicts r row ≡ false
    → any (conflicts r) rs ≡ false
    → any (conflicts r) (replace_named n row rs) ≡ false
any-replace r row n [] h k = refl
any-replace r row n (q ∷ rs) h k = ground (arith, any-replace r row n rs)

-- The UPDATE breaks no constraint where its row keeps the name and has a new id.
pub distinct-replace :
    (n : String) (row : PackageInDb) (rs : List PackageInDb)
    → row.name ≡ n
    → any (λ r. row.id == r.id) rs ≡ false
    → distinct rs ≡ true
    → distinct (replace_named n row rs) ≡ true
unfolding distinct
distinct-replace n row [] e i d = refl
distinct-replace n row (r ∷ rs) e i d = elim (Bool-cases (named n r)) [
  | inl here ↦
      let alone : (any (named n) rs ≡ false) = unnamed_after n r rs here (ground (arith, d)) in
      rw (here, replace_unnamed n row rs alone) (ground (arith, no_conflict row rs, alone, i, d, e))
  | inr away ↦ ground (
    arith,
    away,
    i,
    d,
    eq_iff row.id r.id,
    eq_iff r.id row.id,
    eq_iff r.name row.name,
    eq_iff r.name n,
    any-replace r row n rs,
    distinct-replace n row rs e,
  )
]
