-- ===== src/ProjectConfig/Repos/Sets.antt =====
-- internal/projectconfig/resources.go: sets of repositories, which expand templates.
use azldev.Prelude.{List, [], ◌∷◌, ◌++◌, Bool, true, ◌||◌, ◌&&◌, not, is_nil, map}
use azldev.Prelude.{if◌then◌else◌, Option, none, some, Result, ok, context, reject_if}
use azldev.Prelude.{◌>>=◌, ◌>>◌}
use azldev.Text.{Text, ◌==◌, codes, has_prefix}
use azldev.Text.Order.{contains}
use azldev.Text.Dict.{Dict, put}
use azldev.ProjectConfig.Repos.{RpmRepoResource, validate_rpm_repo_name}
use azldev.ProjectConfig.Repos.Uris.{validate_no_unsafe_chars}

-- SubrepoKind: a text, of which three are known.
abbrev pub kind_binary : Text
kind_binary = codes "binary"

-- SubrepoKind.IsValid
unfoldable pub is_valid_kind : Text → Bool
is_valid_kind k = k == [] || k == kind_binary || k == codes "debug" || k == codes "source"

-- SubrepoKind.Default
unfoldable pub default_kind : Text → Text
default_kind k = if k == [] then kind_binary else k

-- SubrepoSpec
pub record SubrepoSpec : Type 0 where
  pub name : Text
  pub subpath : Text
  pub kind : Text

-- RpmRepoSetTemplate
pub record RpmRepoSetTemplate : Type 0 where
  pub description : Text
  pub subrepos : List SubrepoSpec

-- RpmRepoSet
pub record RpmRepoSet : Type 0 where
  pub description : Text
  pub template : Text
  pub base_uri : Text
  pub name_prefix : Text
  pub gpg_key : Text
  pub disable_gpg_check : Bool
  pub disable_ssl_verify : Bool
  pub arches : List Text
  pub subrepos : List Text

-- ResourcesConfig
pub record ResourcesConfig : Type 0 where
  pub rpm_repos : Dict RpmRepoResource
  pub rpm_repo_set_templates : Dict RpmRepoSetTemplate
  pub rpm_repo_sets : Dict RpmRepoSet

-- ResourcesConfig.IsEmpty
unfoldable pub is_empty_config : Option ResourcesConfig → Bool
is_empty_config none = true
is_empty_config (some r) =
    is_nil r.rpm_repos && is_nil r.rpm_repo_set_templates && is_nil r.rpm_repo_sets

-- `for name, value := range other { d[name] = value }`
unfoldable pub put_all {ℓ} : {V : Type ℓ} → Dict V → Dict V → Dict V
put_all d [] = d
put_all d ((name, value) ∷ other) = put_all (put name value d) other

-- ResourcesConfig.MergeUpdatesFrom
unfoldable pub merge_updates_from : ResourcesConfig → Option ResourcesConfig → ResourcesConfig
unfolding put_all
merge_updates_from r none = r
merge_updates_from r (some other) = record {
  rpm_repos = put_all r.rpm_repos other.rpm_repos;
  rpm_repo_set_templates = put_all r.rpm_repo_set_templates other.rpm_repo_set_templates;
  rpm_repo_sets = put_all r.rpm_repo_sets other.rpm_repo_sets;
}

-- expandedRepo
pub record ExpandedRepo : Type 0 where
  pub name : Text
  pub repo : RpmRepoResource

-- expandedDescription; `quote` is the verb %q.
unfoldable pub expanded_description : (Text → Text) → RpmRepoSet → SubrepoSpec → Text
unfolding default_kind
expanded_description quote set sub =
    let annotation =
      codes "subrepo "
      ++ (quote sub.name ++ (codes " (kind=" ++ (default_kind sub.kind ++ codes ")"))) in
    if not (set.description == [])
    then set.description ++ (codes " — " ++ annotation)
    else codes "expanded from rpm-repo-set, " ++ annotation

-- The loop of buildSubrepoAllowlist over the set's list.
unfoldable pub allow_names : List Text → List Text → List Text → Result (List Text)
allow_names known allowlist [] = ok allowlist
allow_names known allowlist (name ∷ names) = do
  reject_if (not (contains known name))
      "rpm-repo-set %#q `subrepos` allowlist references %#q which is not a sub-repo of template %#q"
  reject_if (contains allowlist name)
      "rpm-repo-set %#q `subrepos` allowlist lists %#q more than once"
  allow_names known (name ∷ allowlist) names

abbrev pub subrepo_names : List SubrepoSpec → List Text
subrepo_names subs = map (λ sub. sub.name) subs

-- buildSubrepoAllowlist; `none` is a nil map.
unfoldable pub build_subrepo_allowlist :
    RpmRepoSet → RpmRepoSetTemplate → Result (Option (List Text))
unfolding allow_names
build_subrepo_allowlist set tmpl = if is_nil set.subrepos then ok none else do
  allowlist ← allow_names (subrepo_names tmpl.subrepos) [] set.subrepos
  ok (some allowlist)

abbrev pub is_allowed : Option (List Text) → Text → Bool
is_allowed none name = true
is_allowed (some allowlist) name = contains allowlist name

-- The loop of validateRpmRepoSetTemplate.
unfoldable pub validate_subrepos : List Text → List SubrepoSpec → Result (Unit {0})
unfolding validate_rpm_repo_name is_valid_kind validate_no_unsafe_chars
validate_subrepos seen [] = ok tt
validate_subrepos seen (sub ∷ subs) = do
  context "rpm-repo-set-template %#q sub-repo %d:\n%w" (validate_rpm_repo_name sub.name)
  reject_if (contains seen sub.name) "rpm-repo-set-template %#q has duplicate sub-repo name %#q"
  reject_if (not (is_valid_kind sub.kind))
      "rpm-repo-set-template %#q sub-repo %#q has invalid `kind` %#q (expected one of: binary, debug, source)"
  reject_if (sub.subpath == []) "rpm-repo-set-template %#q sub-repo %#q is missing `subpath`"
  reject_if (has_prefix sub.subpath (codes "/"))
      "rpm-repo-set-template %#q sub-repo %#q `subpath` must be relative (no leading slash)"
  context "rpm-repo-set-template %#q:\n%w" (validate_no_unsafe_chars sub.subpath)
  validate_subrepos (sub.name ∷ seen) subs

-- validateRpmRepoSetTemplate
unfoldable pub validate_rpm_repo_set_template : RpmRepoSetTemplate → Result (Unit {0})
unfolding validate_subrepos
validate_rpm_repo_set_template tmpl = do
  reject_if (is_nil tmpl.subrepos)
      "rpm-repo-set-template %#q must define at least one entry in `subrepos`"
  validate_subrepos [] tmpl.subrepos
