-- ===== src/Registry/Removing.antt =====
-- Removing, updating and loading packages, in packages/@twokeys/addons/src/registry.ts.
use keys.Prelude.{
  true, false, Option, none, some, List, [], ◌∷◌, String, ◌≡◌, ◌≢◌, refl, eq_iff, any, keep,
  keep-eq-nil, any-keep-not, not, Result, ok, throws, ◌>>=◌, ◌>>◌, arith, ◌⊎◌, inl, inr, Bool-cases,
  and_then, reads, bind-lift,
}
use keys.Registry.{
  Registry, Package, PackageInDb, Validated, valid, invalid, Thrown, multiple_addons, Entry, Info,
  JsonText, stringified, malformed,
}
use keys.Registry.Document.{
  parse_package_from_db, check_claims, parse_types, parse_info, json_parse,
}
use keys.Registry.Table.{named, conflicts, distinct, select_by_name, delete_by_name}
use keys.Registry.Uniqueness.{IsConsistent}
use keys.Registry.Methods.{collect, parse_rows, get_packages_from_db, remove_package_from_db}
use keys.Registry.Loading.{Exports, caught, import_type, load_package, choose, load}

select-delete_self :
    (n : String) (rows : List PackageInDb) → select_by_name n (delete_by_name n rows) ≡ []
unfolding select_by_name delete_by_name
select-delete_self n rows =
    keep-eq-nil (named n) (keep (λ row. not (named n row)) rows) (any-keep-not (named n) rows)

select-delete :
    (n m : String) (rows : List PackageInDb)
    → n ≢ m
    → select_by_name m (delete_by_name n rows) ≡ select_by_name m rows
unfolding select_by_name delete_by_name
select-delete n m [] h = refl
select-delete n m (r ∷ rs) h =
    ground (arith, eq_iff r.name n, eq_iff r.name m, select-delete n m rs)

-- After a removal no package of that name is found, and of every other name what was found before.
pub get-remove :
    (n m : String) (s : Registry)
    → n ≢ m
    → (((remove_package_from_db n >> get_packages_from_db n) s).0 ≡ ok (valid []))
      × (((remove_package_from_db n >> get_packages_from_db m) s).0 ≡ (get_packages_from_db m s).0)
unfolding remove_package_from_db get_packages_from_db parse_rows ◌>>=◌
get-remove n m s ne = (rw (select-delete_self n s.rows), rw (select-delete n m s.rows ne))

pub unnamed_after :
    (n : String) (r : PackageInDb) (rs : List PackageInDb)
    → named n r ≡ true
    → any (conflicts r) rs ≡ false
    → any (named n) rs ≡ false
unnamed_after n r [] h c = refl
unnamed_after n r (q ∷ rs) h c =
    ground (arith, unnamed_after n r rs, eq_iff r.name n, eq_iff r.name q.name, eq_iff q.name n)

-- The rows of a name in a table with unique names: none, or one.
select_at_most_one :
    (n : String) (rows : List PackageInDb)
    → distinct rows ≡ true
    → (select_by_name n rows ≡ []) ⊎ ((r : PackageInDb) × (select_by_name n rows ≡ r ∷ []))
unfolding select_by_name distinct
select_at_most_one n [] d = inl refl
select_at_most_one n (r ∷ rs) d = elim (Bool-cases (named n r)) [
  | inl here ↦
      inr (r, rw (here, keep-eq-nil (named n) rs (unnamed_after n r rs here (ground arith))))
  | inr elsewhere ↦ rw elsewhere (select_at_most_one n rs (ground arith))
]

JsonText-cases : {A : Type 0} (t : JsonText A) → (t ≡ malformed) ⊎ ((a : A) × (t ≡ stringified a))
JsonText-cases (stringified a) = inr (a, refl)
JsonText-cases malformed = inl refl

check_claims-ne :
    (entry : Option Entry) (ts : List String) (p : Package)
    → check_claims entry ts p ≢ throws multiple_addons
unfolding check_claims
check_claims-ne entry [] p h = cc
check_claims-ne none (t ∷ ts) p h = ground arith
check_claims-ne (some e) (t ∷ ts) p h = ground (arith, check_claims-ne (some e) ts p)

parse_types-ne : (row : PackageInDb) (info : Info) → parse_types row info ≢ throws multiple_addons
parse_types-ne row info h = go row.types row.entry h
  where
    go :
        (types : JsonText (List String)) (entry : JsonText (Option Entry))
        → (and_then (json_parse types) λ ts. and_then (json_parse entry) λ e.
            check_claims e ts
              (record { id = some row.id; name = row.name; types = ts; info = info; entry = e }))
          ≢ throws multiple_addons
    go malformed entry h' = cc
    go (stringified ts) malformed h' = cc
    go (stringified ts) (stringified e) h' = check_claims-ne e ts _ h'

parse_info-ne : (row : PackageInDb) (i : Option Info) → parse_info row i ≢ throws multiple_addons
parse_info-ne row none h = cc
parse_info-ne row (some info) h = ground (arith, parse_types-ne row info)

parse-ne-multiple : (row : PackageInDb) → parse_package_from_db row ≢ throws multiple_addons
unfolding parse_package_from_db
parse-ne-multiple row h = elim (JsonText-cases row.info) [
  | inl bad ↦ ground arith
  | inr (i, e) ↦ ground (arith, parse_info-ne row i)
]

caught-ne : {A : Type 0} (r : Result Thrown A) → caught r ≢ throws multiple_addons
caught-ne (ok a) h = cc
caught-ne (throws e) h = ground arith

load_one-ne :
    (import_entry : String → String → Result Thrown Exports) (name t : String)
    (r : Result Thrown (Validated Package))
    → r ≢ throws multiple_addons
    → and_then (and_then r (λ v. collect v (ok (valid [])))) (choose import_entry name t)
      ≢ throws multiple_addons
unfolding load_package
load_one-ne import_entry name t (throws e) ne h = ground (arith, ne)
load_one-ne import_entry name t (ok (invalid m)) ne h = cc
load_one-ne import_entry name t (ok (valid p)) ne h =
    caught-ne (import_type import_entry p t p.entry) h

pub load_result :
    (import_entry : String → String → Result Thrown Exports) (name t : String) (s : Registry)
    → load import_entry name t s
      ≡ (and_then (parse_rows (select_by_name name s.rows)) (choose import_entry name t), s)
unfolding load get_packages_from_db ◌>>=◌
load_result import_entry name t s =
    bind-lift (choose import_entry name t) (reads (λ s'. parse_rows (select_by_name name s'.rows)))
      s

-- `load` never finds two packages of one name in a consistent registry: the error "Got back
-- multiple add-ons" cannot occur.
pub load-ne-multiple :
    (import_entry : String → String → Result Thrown Exports) (name t : String) (s : Registry)
    → IsConsistent s
    → (load import_entry name t s).0 ≢ throws multiple_addons
unfolding parse_rows
load-ne-multiple import_entry name t s d = rw load_result (elim (select_at_most_one name s.rows d) [
  | inl e ↦ rw (e, parse_rows) (λ h. cc)
  | inr (r, e) ↦
      rw (e, parse_rows)
        (load_one-ne import_entry name t (parse_package_from_db r) (parse-ne-multiple r))
])
