-- ===== src/Software/Tables.antt =====
-- The SQL statements of packages/@twokeys/addons/src/software.ts and software-query-provider.ts on
-- the tables `software`, with UNIQUE (name, ownerName), and `executables`, with UNIQUE (name,
-- softwareId); both have `id` as their primary key (util/constants.ts). The foreign keys are not
-- enforced: the code never turns SQLite's check of them on.
use keys.Prelude.{
  Bool, true, false, Option, none, some, List, [], ◌∷◌, String, ◌==◌, ◌||◌, ◌&&◌, not, any, keep,
  map, snoc, Result, ok, throws, if◌then◌else◌,
}
use keys.Software.{SoftwareDirectlyFromDb, ExecutableDirectlyFromDb, Thrown, constraint, Table}

abbrev pub owned : String → String → SoftwareDirectlyFromDb → Bool
owned name owner row = row.name == name && row.owner_name == owner

abbrev pub software_conflicts : SoftwareDirectlyFromDb → SoftwareDirectlyFromDb → Bool
software_conflicts a b = a.id == b.id || owned a.name a.owner_name b

abbrev pub part_of : String → ExecutableDirectlyFromDb → Bool
part_of id row = row.software_id == id

abbrev pub called : String → String → ExecutableDirectlyFromDb → Bool
called name id row = row.name == name && part_of id row

abbrev pub executable_conflicts : ExecutableDirectlyFromDb → ExecutableDirectlyFromDb → Bool
executable_conflicts a b = a.id == b.id || called a.name a.software_id b

module _ {A : Type 0} (clash : A → A → Bool) where
  unfoldable pub distinct : List A → Bool
  distinct [] = true
  distinct (r ∷ rs) = not (any (clash r) rs) && distinct rs

  -- An INSERT.
  unfoldable pub insert : Table → A → List A → Result Thrown (List A)
  insert table row rows =
      if any (clash row) rows then throws (constraint table) else ok (snoc rows row)

  -- An UPDATE of the rows that its WHERE clause selects: all or none.
  unfoldable pub update_where : Table → (A → Bool) → (A → A) → List A → Result Thrown (List A)
  update_where table selected change rows =
      let changed = map (λ row. if selected row then change row else row) rows in
      if distinct changed then ok changed else throws (constraint table)

-- SELECT id FROM software WHERE name = ? AND ownerName = ?, as a value: NULL where there is none.
unfoldable pub id_of : String → String → List SoftwareDirectlyFromDb → Option String
id_of name owner [] = none
id_of name owner (row ∷ rows) =
    let rest = id_of name owner rows in if owned name owner row then some row.id else rest

-- `softwareId = (SELECT id …)`: nothing is equal to NULL.
abbrev pub part_of_found : Option String → ExecutableDirectlyFromDb → Bool
part_of_found none row = false
part_of_found (some id) row = part_of id row

-- DELETE
unfoldable pub delete_where {ℓ} : {A : Type ℓ} → (A → Bool) → List A → List A
delete_where selected = keep (λ row. not (selected row))
