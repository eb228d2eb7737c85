-- ===== src/Registry/Reachable.antt =====
-- The registries that calls of the methods of packages/@twokeys/addons/src/registry.ts lead to.
use keys.Prelude.{Bool, String, Preserves, preserves_rules}
use keys.Registry.{Registry}
use keys.Registry.Methods.{AddPackageOptions, add_package_to_db, remove_package_from_db, reindex}
use keys.Registry.Installing.{Outside, run_npm, uninstall, update}
use keys.Registry.Uniqueness.{
  IsConsistent, adding-IsConsistent, remove-IsConsistent, reindex-IsConsistent,
}

-- One call of a method, whether it returns or throws.
pub data Step (out : Outside) (s : Registry) : Registry → Type 0 where
  adds :
      (name : String) (o : AddPackageOptions) → Step out s (add_package_to_db out.uuid name o s).1
  removes : (name : String) → Step out s (remove_package_from_db name s).1
  reindexes : Step out s (reindex out.uuid s).1
  uninstalls : (name : String) (force : Bool) → Step out s (uninstall out name force s).1
  updates : (name version : String) (force : Bool) → Step out s (update out name version force s).1

pub data Reaches (out : Outside) (s : Registry) : Registry → Type 0 where
  done : Reaches out s s
  then : {t u : Registry} → Reaches out s t → Step out t u → Reaches out s u

module _ (out : Outside) where
  npm-IsConsistent :
      (package_name command : String) (force : Bool)
      → Preserves IsConsistent (run_npm out package_name command force)
  unfolding run_npm
  npm-IsConsistent package_name command force = record { after = λ s h. h }

  uninstall-IsConsistent :
      (name : String) (force : Bool) → Preserves IsConsistent (uninstall out name force)
  unfolding uninstall
  uninstall-IsConsistent name force =
      search (preserves_rules, npm-IsConsistent, remove-IsConsistent)

  update-IsConsistent :
      (name version : String) (force : Bool)
      → Preserves IsConsistent (update out name version force)
  unfolding update
  update-IsConsistent name version force =
      search (preserves_rules, npm-IsConsistent, adding-IsConsistent)

  step-IsConsistent : {s t : Registry} → Step out s t → IsConsistent s → IsConsistent t
  step-IsConsistent {s = s} (adds name o) h = (adding-IsConsistent out.uuid name o).after s h
  step-IsConsistent {s = s} (removes name) h = (remove-IsConsistent name).after s h
  step-IsConsistent {s = s} reindexes h = reindex-IsConsistent out.uuid s
  step-IsConsistent {s = s} (uninstalls name force) h =
      (uninstall-IsConsistent name force).after s h
  step-IsConsistent {s = s} (updates name version force) h =
      (update-IsConsistent name version force).after s h

  -- However many calls add (with any options), remove, reindex, uninstall or update packages, return
  -- or throw, and whatever npm does: from a consistent table they lead to a consistent one, where no
  -- two rows have one id or one name.
  pub Reaches-IsConsistent : {s t : Registry} → IsConsistent s → Reaches out s t → IsConsistent t
  Reaches-IsConsistent h done = h
  Reaches-IsConsistent h (then before last) = step-IsConsistent last (Reaches-IsConsistent h before)
