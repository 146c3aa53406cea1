-- ===== src/Manifest/Acyclic.antt =====
-- `ensure_acyclic` of core/src/manifest.rs: a depth-first search over the required dependencies of
-- the enabled modules. The two sets that it updates in place are passed as `Marks`; the recursion
-- of `visit` takes fuel, one more than the number of enabled modules.
pub mod Chains
pub mod Sound
pub mod Complete
use better_commerce.Prelude.{
  ℕ, zero, suc, Text, text, List, [], ◌∷◌, ◌++◌, if◌then◌else◌, BTreeMap, BTreeSet, contains,
  insert, remove, get, contains_key, keys, length, Outcome, returns, fails, out_of_fuel,
}
use better_commerce.Prelude.Outcomes.{index, ◌>>=◌}
use better_commerce.Manifest.Types.{
  Crates, ManifestError, ModuleInstallation, ReleaseMetadata, ModuleMetadata,
}

unfoldable pub cycle_error : Text → ManifestError
cycle_error id = record { message = text "module dependency cycle includes '" ++ (id ++ text "'") }

pub record Marks : Type 0 where
  pub visiting : BTreeSet
  pub visited : BTreeSet

abbrev pub Visit : Type 0
Visit = Marks → Outcome ManifestError Marks

-- A `for` loop whose body may end the function with an error.
unfoldable pub for_each : (Text → Visit) → List Text → Visit
for_each body [] s = returns s
for_each body (d ∷ ds) s = body d s >>= λ s'. for_each body ds s'

unfoldable pub leave : Text → Marks → Marks
leave id s = record { visiting = remove id s.visiting; visited = insert id s.visited }

module _ (X : Crates) (modules : BTreeMap (ModuleInstallation X))
    (metadata : ReleaseMetadata X) where
  -- The body of the loop in `visit`, with the recursive call passed in.
  unfoldable pub visit_dependency : (Text → Visit) → Text → Visit
  visit_dependency rec d s = if contains_key d modules then rec d s else returns s

  unfoldable pub visit_dependencies :
      (Text → Visit) → Text → Marks → ModuleMetadata X → Outcome ManifestError Marks
  unfolding for_each visit_dependency
  visit_dependencies rec id s module_metadata =
      for_each (visit_dependency rec) module_metadata.required_dependencies
        (record s { visiting = insert id s.visiting })

  unfoldable pub enter : (Text → Visit) → Text → Visit
  unfolding visit_dependencies leave
  enter rec id s = do
    module_metadata ← index (get id metadata.modules)
    s' ← visit_dependencies rec id s module_metadata
    returns (leave id s')

  unfoldable pub visit : ℕ → Text → Visit
  unfolding enter
  visit zero id s = out_of_fuel
  visit (suc fuel) id s =
      let inside = enter (visit fuel) id s in
      if contains id s.visited
      then returns s
      else if contains id s.visiting
      then fails (cycle_error id)
      else inside

  unfoldable pub ensure_acyclic : Outcome ManifestError (Unit {0})
  unfolding visit for_each
  ensure_acyclic = do
    _ ←
        for_each (visit (suc (length modules))) (keys modules)
          (record { visiting = []; visited = [] })
    returns tt
