-- ===== src/ProjectConfig/Repos/Expansion.antt =====
-- internal/projectconfig/resources.go: the expansion of sets into repositories.
pub mod Entries
pub mod Union
use azldev.Prelude.{
  ℕ, List, [], ◌∷◌, ◌++◌, Bool, true, false, ◌||◌, ◌&&◌, not, ◌=?◌, is_nil, any, map,
}
use azldev.Prelude.{if◌then◌else◌, Option, none, some, Result, ok, err, new, context, reject_if}
use azldev.Prelude.{◌>>=◌, ◌>>◌}
use azldev.Text.{Text, ◌==◌, codes, has_prefix, split}
use azldev.Text.Order.{contains, sort}
use azldev.Text.Dict.{Dict, lookup, put, is_some}
use azldev.FilePath.Clean.{trim_right_slashes}
use azldev.ProjectConfig.Repos.{RpmRepoResource, rpm_md, validate_rpm_repo_name, validate_given_key}
use azldev.ProjectConfig.Repos.Uris.{
  UrlPackage, validate_no_unsafe_chars, validate_remote_uri, absolutize_key_path,
}
use azldev.ProjectConfig.Repos.Sets.{
  SubrepoSpec, RpmRepoSetTemplate, RpmRepoSet, ResourcesConfig, ExpandedRepo, expanded_description,
  build_subrepo_allowlist, is_allowed,
}

abbrev pub keys {ℓ} : {V : Type ℓ} → Dict V → List Text
keys [] = []
keys ((name, value) ∷ d) = name ∷ keys d

module _ (U : UrlPackage) (quote : Text → Text) where
  -- joinSetBaseURI
  unfoldable pub join_set_base_uri : Text → Text → Result Text
  join_set_base_uri base_uri subpath = do
    reject_if (subpath == []) "rpm-repo-set %#q template has an empty `subpath`"
    reject_if (has_prefix subpath (codes "/"))
        "rpm-repo-set %#q template `subpath` %#q must be relative (no leading slash)"
    reject_if (any (λ segment. segment == codes "..") (split subpath b'/'))
        "rpm-repo-set %#q template `subpath` %#q must not contain `..` segments"
    reject_if (any (λ c. c =? b'?' || c =? b'#') subpath)
        "rpm-repo-set %#q template `subpath` %#q must not contain a query string or fragment (no `?` or `#`)"
    parsed ← context "rpm-repo-set %#q `base-uri` is not a valid URI:\n%w" (U.parse base_uri)
    reject_if (not (parsed.raw_query == []) || not (parsed.fragment == []))
        "rpm-repo-set %#q `base-uri` must not contain a query string or fragment (got %q)"
    ok (trim_right_slashes base_uri ++ (b'/' ∷ subpath))

  -- validateRpmRepoSet
  unfoldable pub validate_rpm_repo_set : RpmRepoSet → Result (Unit {0})
  unfolding validate_remote_uri validate_given_key
  validate_rpm_repo_set set = do
    reject_if (set.template == []) "rpm-repo-set %#q is missing `template`"
    reject_if (set.base_uri == []) "rpm-repo-set %#q is missing `base-uri`"
    validate_remote_uri U set.base_uri
    reject_if (not set.disable_gpg_check && set.gpg_key == [])
        "rpm-repo-set %#q has GPG checking enabled (the default) but no `gpg-key`; either set `gpg-key = \"...\"` or opt out with `disable-gpg-check = true`"
    validate_given_key U set.gpg_key

  -- The entry that expandRpmRepoSet makes of a sub-repo.
  abbrev pub expanded_repo : RpmRepoSet → SubrepoSpec → Text → ExpandedRepo
  expanded_repo set sub base_uri = record {
    name = set.name_prefix ++ sub.name;
    repo = record {
      description = expanded_description quote set sub;
      repo_type = rpm_md;
      base_uri = base_uri;
      metalink = [];
      disable_gpg_check = set.disable_gpg_check;
      gpg_key = set.gpg_key;
      arches = set.arches;
    };
  }

  -- A round of the loop of expandRpmRepoSet, for a sub-repo that is allowed.
  unfoldable pub expand_subrepo : RpmRepoSet → SubrepoSpec → Result ExpandedRepo
  unfolding join_set_base_uri validate_rpm_repo_name expanded_description
  expand_subrepo set sub = do
    base_uri ← join_set_base_uri set.base_uri sub.subpath
    context
        "rpm-repo-set %#q would synthesize an invalid repo ID %#q (combining `name-prefix` %#q with sub-repo name %#q):\n%w"
        (validate_rpm_repo_name (set.name_prefix ++ sub.name))
    ok (expanded_repo set sub base_uri)

  -- The loop of expandRpmRepoSet.
  unfoldable pub expand_subrepos :
      RpmRepoSet → Option (List Text) → List SubrepoSpec → Result (List ExpandedRepo)
  unfolding expand_subrepo
  expand_subrepos set allowlist [] = ok []
  expand_subrepos set allowlist (sub ∷ subs) =
      let rest = expand_subrepos set allowlist subs in
      if not (is_allowed allowlist sub.name)
      then rest
      else do entry ← expand_subrepo set sub; entries ← rest; ok (entry ∷ entries)

  unfoldable pub expand_template :
      RpmRepoSet → Option RpmRepoSetTemplate → Result (List ExpandedRepo)
  unfolding build_subrepo_allowlist expand_subrepos
  expand_template set none = err (
      new
        "rpm-repo-set %#q references undefined `template` %#q; define a matching key under `[resources.rpm-repo-set-templates]`")
  expand_template set (some tmpl) = do
    allowlist ← build_subrepo_allowlist set tmpl
    expand_subrepos set allowlist tmpl.subrepos

  -- expandRpmRepoSet
  unfoldable pub expand_rpm_repo_set :
      RpmRepoSet → Dict RpmRepoSetTemplate → Result (List ExpandedRepo)
  unfolding validate_rpm_repo_set expand_template
  expand_rpm_repo_set set templates = do
    validate_rpm_repo_set set
    expand_template set (lookup set.template templates)

  -- The inner loop of EffectiveRpmRepos.
  unfoldable pub add_entries :
      Dict RpmRepoResource → List ExpandedRepo → Result (Dict RpmRepoResource)
  add_entries effective [] = ok effective
  add_entries effective (entry ∷ entries) = do
    reject_if (is_some (lookup entry.name effective))
        "rpm-repo-set %#q expansion produced repo name %#q which already exists (either as an explicit entry under `[resources.rpm-repos]` or from another set's expansion); choose a different `name-prefix` or rename the colliding entry"
    add_entries (put entry.name entry.repo effective) entries

  -- The expansion of the set that the lookup gives; for an absent key Go gives a set with no fields.
  abbrev pub expand_found : Option RpmRepoSet → Dict RpmRepoSetTemplate → Result (List ExpandedRepo)
  expand_found none templates = err (new "rpm-repo-set %#q is missing `template`")
  expand_found (some set) templates = expand_rpm_repo_set set templates

  -- The outer loop of EffectiveRpmRepos, over the names of the sets.
  unfoldable pub add_sets :
      ResourcesConfig → Dict RpmRepoResource → List Text → Result (Dict RpmRepoResource)
  unfolding expand_rpm_repo_set add_entries
  add_sets r effective [] = ok effective
  add_sets r effective (set_name ∷ set_names) = do
    expanded ← expand_found (lookup set_name r.rpm_repo_sets) r.rpm_repo_set_templates
    effective' ← add_entries effective expanded
    add_sets r effective' set_names

  -- ResourcesConfig.EffectiveRpmRepos
  unfoldable pub effective_rpm_repos : Option ResourcesConfig → Result (Dict RpmRepoResource)
  unfolding add_sets sort
  effective_rpm_repos none = ok []
  effective_rpm_repos (some r) = add_sets r r.rpm_repos (sort (keys r.rpm_repo_sets))

  -- The loops of ResourcesConfig.WithAbsolutePaths.
  unfoldable pub absolute_repo_keys : Text → Dict RpmRepoResource → Dict RpmRepoResource
  absolute_repo_keys reference_dir [] = []
  absolute_repo_keys reference_dir ((name, repo) ∷ repos) =
      let rest = absolute_repo_keys reference_dir repos in
      if not (repo.gpg_key == [])
      then (name, record repo { gpg_key = absolutize_key_path U repo.gpg_key reference_dir }) ∷ rest
      else (name, repo) ∷ rest

  unfoldable pub absolute_set_keys : Text → Dict RpmRepoSet → Dict RpmRepoSet
  absolute_set_keys reference_dir [] = []
  absolute_set_keys reference_dir ((name, set) ∷ sets) =
      let rest = absolute_set_keys reference_dir sets in
      if not (set.gpg_key == [])
      then (name, record set { gpg_key = absolutize_key_path U set.gpg_key reference_dir }) ∷ rest
      else (name, set) ∷ rest

  -- ResourcesConfig.WithAbsolutePaths
  unfoldable pub resources_with_absolute_paths :
      Option ResourcesConfig → Text → Option ResourcesConfig
  unfolding absolute_repo_keys absolute_set_keys
  resources_with_absolute_paths none reference_dir = none
  resources_with_absolute_paths (some r) reference_dir = some (record r {
    rpm_repos = absolute_repo_keys reference_dir r.rpm_repos;
    rpm_repo_sets = absolute_set_keys reference_dir r.rpm_repo_sets;
  })
