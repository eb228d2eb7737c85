-- ===== src/Software/Removal.antt =====
-- What uninstalling software, and an install that is rolled back, leave in the tables
-- (packages/@twokeys/addons/src/software.ts and software-query-provider.ts).
use keys.Prelude.{
  Bool, true, false, Option, none, some, List, [], ◌∷◌, String, ◌≡◌, ◌≢◌, refl, inl, inr,
  Bool-cases, eq_iff, ◌==◌, ◌&&◌, ◌||◌, not, any, all, keep, map, any-keep-not, throws, ◌>>=◌, ◌>>◌,
  arith,
}
use keys.Software.{Store, foreign, SoftwareDirectlyFromDb, ExecutableDirectlyFromDb}
use keys.Software.Tables.{
  distinct, software_conflicts, owned, part_of, part_of_found, id_of, delete_where,
}
use keys.Software.Provider.{parse_software, softwares_of, get_softwares, uninstall_software}
use keys.Software.Consistency.{IsConsistent}
use keys.Software.Lookups.{keep-selected_by}

keep-delete_where :
    (i : Option String) (id : String) (es : List ExecutableDirectlyFromDb)
    → i ≢ some id
    → keep (part_of id) (delete_where (part_of_found i) es) ≡ keep (part_of id) es
unfolding delete_where
keep-delete_where none id [] h = refl
keep-delete_where none id (e ∷ es) h = ground (arith, keep-delete_where none id es h)
keep-delete_where (some i) id [] h = refl
keep-delete_where (some i) id (e ∷ es) h =
    ground (
      arith,
      h,
      keep-delete_where (some i) id es h,
      eq_iff e.software_id i,
      eq_iff e.software_id id,
    )

-- Deleting other software's executables does not show in what is read of a row.
parse-delete_where :
    (i : Option String) (r : SoftwareDirectlyFromDb) (es : List ExecutableDirectlyFromDb)
    → i ≢ some r.id
    → parse_software (delete_where (part_of_found i) es) r ≡ parse_software es r
unfolding parse_software
parse-delete_where i r es h = rw (keep-delete_where i r.id es h)

other_id :
    (name owner : String) (r : SoftwareDirectlyFromDb) (rows : List SoftwareDirectlyFromDb)
    → any (software_conflicts r) rows ≡ false
    → id_of name owner rows ≢ some r.id
unfolding id_of
other_id name owner r [] c h = ground (arith, h)
other_id name owner r (q ∷ rows) c h =
    ground (arith, h, eq_iff r.id q.id, other_id name owner r rows)

abbrev has_id : Option String → SoftwareDirectlyFromDb → Bool
has_id none r = false
has_id (some i) r = i == r.id

-- Rows of another name or owner have another id than the one that is deleted.
abbrev apart : String → String → Option String → List SoftwareDirectlyFromDb → Bool
apart m p i = all (λ r. not (owned m p r && has_id i r))

apart-conflicts :
    (m p : String) (r : SoftwareDirectlyFromDb) (rows : List SoftwareDirectlyFromDb)
    → any (software_conflicts r) rows ≡ false
    → apart m p (some r.id) rows ≡ true
apart-conflicts m p r [] c = refl
apart-conflicts m p r (q ∷ rows) c = ground (arith, c, apart-conflicts m p r rows)

differs-id : (i : Option String) (r : SoftwareDirectlyFromDb) → i ≢ some r.id → has_id i r ≡ false
differs-id none r h = refl
differs-id (some i) r h = ground (arith, h, eq_iff i r.id)

id-differs : (i : Option String) (r : SoftwareDirectlyFromDb) → has_id i r ≡ false → i ≢ some r.id
id-differs none r h q = ground (arith, q)
id-differs (some i) r h q = ground (arith, h, q, eq_iff i r.id)

module _ (n o m p : String) (other : (m == n && p == o) ≡ false) where
  other_owned : (r : SoftwareDirectlyFromDb) → owned n o r ≡ true → owned m p r ≡ false
  other_owned r h = ground (
    arith,
    other,
    h,
    eq_iff r.name n,
    eq_iff r.name m,
    eq_iff r.owner_name o,
    eq_iff r.owner_name p,
    eq_iff m n,
    eq_iff p o,
  )

  apart_found :
      (rows : List SoftwareDirectlyFromDb)
      → distinct software_conflicts rows ≡ true
      → apart m p (id_of n o rows) rows ≡ true
  unfolding distinct id_of
  apart_found [] d = refl
  apart_found (r ∷ rows) d = elim (Bool-cases (owned n o r)) [
    | inl h ↦ ground (arith, h, d, other_owned r h, apart-conflicts m p r rows)
    | inr h ↦
        ground (arith, h, d, apart_found rows, differs-id (id_of n o rows) r, other_id n o r rows)
  ]

  keep_other :
      (rows : List SoftwareDirectlyFromDb)
      → keep (owned m p) (delete_where (owned n o) rows) ≡ keep (owned m p) rows
  unfolding delete_where
  keep_other [] = refl
  keep_other (r ∷ rows) = ground (arith, other_owned r, keep_other rows)

  parse_other :
      (i : Option String) (es : List ExecutableDirectlyFromDb) (rows : List SoftwareDirectlyFromDb)
      → apart m p i rows ≡ true
      → map (parse_software (delete_where (part_of_found i) es)) (keep (owned m p) rows)
        ≡ map (parse_software es) (keep (owned m p) rows)
  parse_other i es [] a = refl
  parse_other i es (r ∷ rows) a =
      ground (arith, parse-delete_where i r es, id-differs i r, parse_other i es rows)

id_of-delete_where :
    (n o : String) (rows : List SoftwareDirectlyFromDb)
    → id_of n o (delete_where (owned n o) rows) ≡ none
unfolding id_of delete_where
id_of-delete_where n o [] = refl
id_of-delete_where n o (r ∷ rows) = ground (arith, id_of-delete_where n o rows)

-- After uninstallSoftware of software that is there, by an object whose database is open, neither it nor
-- an executable of its id is left, and software of another name or owner is read as before, with its
-- executables, where the tables were consistent, and its owner is not "*" and its name neither "*" nor
-- "". By an object whose database is not open it throws and nothing changes.
pub get-uninstall :
    (n o m p i : String) (s : Store)
    → IsConsistent s
    → (p == "*") ≡ false
    → (m == "*" || m == "") ≡ false
    → id_of n o s.softwares ≡ some i
    → (m == n && p == o) ≡ false
    → (id_of n o (uninstall_software true n o s).1.softwares ≡ none)
      × (any (part_of i) (uninstall_software true n o s).1.executables ≡ false)
      × (((uninstall_software true n o >> get_softwares (some m) p) s).0
          ≡ (get_softwares (some m) p s).0)
      × (uninstall_software false n o s ≡ (throws foreign, s))
unfolding uninstall_software get_softwares softwares_of delete_where ◌>>=◌
get-uninstall n o m p i s h w v e other = (
  id_of-delete_where n o s.softwares,
  rw e (any-keep-not (part_of i) s.executables),
  rw (
    keep-selected_by m p w v (delete_where (owned n o) s.softwares),
    keep-selected_by m p w v s.softwares,
    keep_other n o m p other s.softwares,
    parse_other n o m p other (id_of n o s.softwares) s.executables s.softwares
        (apart_found n o m p other s.softwares h.0),
  ),
  refl,
)
