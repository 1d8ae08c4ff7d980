-- ===== src/ProjectConfig/Repos/Inputs.antt =====
-- internal/projectconfig/resources.go: the repositories that a distro version takes as inputs.
pub mod Produced
use azldev.Prelude.{List, [], ◌∷◌, ◌++◌, Bool, ◌&&◌, not, if◌then◌else◌, Option, none, some}
use azldev.Prelude.{Result, ok, err, new, reject_if, ◌>>=◌, ◌>>◌}
use azldev.Text.{Text, ◌==◌}
use azldev.Text.Order.{contains}
use azldev.Text.Dict.{lookup}
use azldev.ProjectConfig.Repos.Uris.{UrlPackage}
use azldev.ProjectConfig.Repos.Sets.{RpmRepoSet, ResourcesConfig, ExpandedRepo}
use azldev.ProjectConfig.Repos.Expansion.{expand_rpm_repo_set}

-- DistroVersionInput
pub record DistroVersionInput : Type 0 where
  pub repo : Text
  pub set : Text

-- validateDistroVersionInput
unfoldable pub validate_distro_version_input : DistroVersionInput → Result (Unit {0})
validate_distro_version_input entry = do
  reject_if (entry.repo == [] && entry.set == [])
      "`inputs.%s` entry %d sets neither `repo` nor `set`; exactly one is required"
  reject_if (not (entry.repo == []) && not (entry.set == []))
      "`inputs.%s` entry %d sets both `repo` (%#q) and `set` (%#q); exactly one is required"

-- The names that were emitted, in their order; `seen` is the map of the same names.
pub record Emitted : Type 0 where
  pub out : List Text
  pub seen : List Text

-- The function `emit` of effectiveInputRepos.
unfoldable pub emit : Emitted → Text → Result Emitted
emit s repo_name = do
  reject_if (contains s.seen repo_name)
      "`inputs.%s` produces repo %#q more than once (most recently from %s); remove the duplicate to disambiguate"
  ok (record { out = s.out ++ repo_name ∷ []; seen = repo_name ∷ s.seen })

-- The loop over an expansion.
unfoldable pub emit_all : Emitted → List ExpandedRepo → Result Emitted
unfolding emit
emit_all s [] = ok s
emit_all s (entry ∷ entries) = do s' ← emit s entry.name; emit_all s' entries

module _ (U : UrlPackage) (quote : Text → Text) where
  unfoldable pub expand_defined : ResourcesConfig → Option RpmRepoSet → Result (List ExpandedRepo)
  unfolding expand_rpm_repo_set
  expand_defined resources none =
      err (new "`inputs.%s` entry %d references undefined rpm-repo-set %#q")
  expand_defined resources (some set) =
      expand_rpm_repo_set U quote set resources.rpm_repo_set_templates

  -- The set that an entry names, expanded.
  unfoldable pub expand_input : Option ResourcesConfig → Text → Result (List ExpandedRepo)
  unfolding expand_defined
  expand_input none set_name =
      err (
        new
          "`inputs.%s` entry %d references rpm-repo-set %#q but no [resources] section is defined")
  expand_input (some resources) set_name =
      expand_defined resources (lookup set_name resources.rpm_repo_sets)

  -- The switch of effectiveInputRepos.
  unfoldable pub emit_input : Option ResourcesConfig → Emitted → DistroVersionInput → Result Emitted
  unfolding emit emit_all expand_input
  emit_input resources s entry =
      if not (entry.repo == [])
      then emit s entry.repo
      else if not (entry.set == [])
      then expand_input resources entry.set >>= emit_all s
      else ok s

  -- The outer loop of effectiveInputRepos.
  unfoldable pub emit_inputs :
      Option ResourcesConfig → Emitted → List DistroVersionInput → Result Emitted
  unfolding validate_distro_version_input emit_input
  emit_inputs resources s [] = ok s
  emit_inputs resources s (entry ∷ inputs) = do
    validate_distro_version_input entry
    s' ← emit_input resources s entry
    emit_inputs resources s' inputs

  -- effectiveInputRepos, of which EffectiveRpmBuildRepos and EffectiveImageBuildRepos are the two uses.
  unfoldable pub effective_input_repos :
      List DistroVersionInput → Option ResourcesConfig → Result (List Text)
  unfolding emit_inputs
  effective_input_repos inputs resources = do
    s ← emit_inputs resources (record { out = []; seen = [] }) inputs
    ok s.out
