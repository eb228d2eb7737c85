-- ===== src/Registry/Table.antt =====
-- The SQL statements of packages/@twokeys/addons/src/registry.ts on the table `packages`, whose
-- `id` is the primary key and whose `name` is UNIQUE (util/constants.ts).
use keys.Prelude.{
  Bool, true, List, [], ◌∷◌, String, ◌==◌, ◌||◌, ◌&&◌, not, any, keep, map, snoc, Result, ok,
  throws, if◌then◌else◌,
}
use keys.Registry.{PackageInDb, Thrown, constraint}

abbrev pub named : String → PackageInDb → Bool
named n row = row.name == n

-- Two rows that may not stand in one table.
abbrev pub conflicts : PackageInDb → PackageInDb → Bool
conflicts a b = a.id == b.id || a.name == b.name

unfoldable pub distinct : List PackageInDb → Bool
distinct [] = true
distinct (r ∷ rs) = not (any (conflicts r) rs) && distinct rs

-- SELECT * FROM packages WHERE name = ?
unfoldable pub select_by_name : String → List PackageInDb → List PackageInDb
select_by_name n = keep (named n)

-- DELETE FROM packages WHERE name=?
unfoldable pub delete_by_name : String → List PackageInDb → List PackageInDb
delete_by_name n = keep (λ row. not (named n row))

-- INSERT INTO packages
unfoldable pub insert : PackageInDb → List PackageInDb → Result Thrown (List PackageInDb)
insert row rows = if any (conflicts row) rows then throws constraint else ok (snoc rows row)

-- UPDATE packages SET id, name, types, info, entry WHERE name: all rows or none.
abbrev pub replace_named : String → PackageInDb → List PackageInDb → List PackageInDb
replace_named n row = map (λ old. if named n old then row else old)

unfoldable pub update_by_name :
    String → PackageInDb → List PackageInDb → Result Thrown (List PackageInDb)
update_by_name n row rows =
    let changed = replace_named n row rows in
    if distinct changed then ok changed else throws constraint
