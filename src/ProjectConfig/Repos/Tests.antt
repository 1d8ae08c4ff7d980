-- ===== src/ProjectConfig/Repos/Tests.antt =====
-- Repositories and sets at concrete data.
use azldev.Prelude.{List, [], ◌∷◌, ◌++◌, true, false, ◌≡◌, ◌↔◌, refl}
use azldev.Prelude.{some, ok}
use azldev.Text.{Text, ◌==◌, codes, to_lower, has_prefix, split}
use azldev.Text.Order.{contains, sort, insert}
use azldev.Text.Dict.{Dict, lookup, put, delete}
use azldev.FilePath.Clean.{trim_right_slashes, trim_left_slashes}
use azldev.ProjectConfig.Repos.{RpmRepoResource}
use azldev.ProjectConfig.Repos.Uris.{UrlPackage}
use azldev.ProjectConfig.Repos.Keys.{IsFilePrefixed}
use azldev.ProjectConfig.Repos.Sets.{
  SubrepoSpec, RpmRepoSetTemplate, RpmRepoSet, ExpandedRepo, ResourcesConfig,
}
use azldev.ProjectConfig.Repos.Merge.{has_distinct_keys}
use azldev.ProjectConfig.Repos.Expansion.{expanded_repo, expand_rpm_repo_set, effective_rpm_repos}
use azldev.ProjectConfig.Repos.Expansion.Entries.{IsExpansion, expand_rpm_repo_set-IsExpansion}
use azldev.ProjectConfig.Repos.Expansion.Union.{IsUnion, effective_rpm_repos-IsUnion}
use azldev.ProjectConfig.Project.{Distro, validate_resources}
use azldev.ProjectConfig.Project.Consistent.{IsConsistent, validate_resources-IsConsistent}
use azldev.ProjectConfig.Repos.Inputs.{DistroVersionInput, effective_input_repos}
use azldev.ProjectConfig.Repos.Inputs.Produced.{
  produced_names, is_distinct, effective_input_repos_iff,
}

-- Every text is a URI of this host.
abbrev one_host : UrlPackage
one_host = record {
  parse = λ raw. ok (record {
    scheme = codes "https";
    opaque = [];
    host = codes "example.com";
    path = codes "/";
    raw_query = [];
    fragment = [];
  });
  file_url = λ path. codes "file://" ++ path;
}

abbrev one_host_prefixed : IsFilePrefixed one_host
one_host_prefixed = record { rest = λ path. codes "//" ++ path; prefixed = λ path. refl }

abbrev unquoted : Text → Text
unquoted t = t

abbrev base_sub : SubrepoSpec
base_sub = record { name = codes "base"; subpath = codes "base/$basearch"; kind = [] }

abbrev debug_sub : SubrepoSpec
debug_sub = record { name = codes "debug"; subpath = codes "debug"; kind = codes "debug" }

abbrev layout : RpmRepoSetTemplate
layout = record { description = []; subrepos = base_sub ∷ debug_sub ∷ [] }

abbrev prod_set : RpmRepoSet
prod_set = record {
  description = [];
  template = codes "layout";
  base_uri = codes "https://example.com/";
  name_prefix = codes "prod-";
  gpg_key = [];
  disable_gpg_check = true;
  disable_ssl_verify = false;
  arches = [];
  subrepos = codes "base" ∷ [];
}

abbrev own_repo : RpmRepoResource
own_repo = record {
  description = [];
  repo_type = [];
  base_uri = codes "https://example.com/own";
  metalink = [];
  disable_gpg_check = true;
  gpg_key = [];
  arches = [];
}

abbrev resources : ResourcesConfig
resources = record {
  rpm_repos = (codes "own", own_repo) ∷ [];
  rpm_repo_set_templates = (codes "layout", layout) ∷ [];
  rpm_repo_sets = (codes "prod", prod_set) ∷ [];
}

prod_set_expands :
    expand_rpm_repo_set one_host unquoted prod_set resources.rpm_repo_set_templates
    ≡ ok (
        expanded_repo one_host unquoted prod_set base_sub
          (codes "https://example.com/base/$basearch")
        ∷ [])
unfolding expand_rpm_repo_set lookup ◌==◌ has_prefix split contains trim_right_slashes to_lower
    trim_left_slashes
prod_set_expands = refl

abbrev base_entries : List ExpandedRepo
base_entries =
    expanded_repo one_host unquoted prod_set base_sub (codes "https://example.com/base/$basearch")
    ∷ []

-- The expansion of the set.
expand_rpm_repo_set-IsExpansion_example :
    IsExpansion one_host unquoted prod_set resources.rpm_repo_set_templates base_entries
expand_rpm_repo_set-IsExpansion_example =
    expand_rpm_repo_set-IsExpansion one_host unquoted prod_set resources.rpm_repo_set_templates
      base_entries prod_set_expands

abbrev all_repos : Dict RpmRepoResource
all_repos =
    (
      codes "prod-base",
      (expanded_repo one_host unquoted prod_set base_sub
          (codes "https://example.com/base/$basearch")).repo,
    )
    ∷ (codes "own", own_repo)
    ∷ []

all_repos_found : effective_rpm_repos one_host unquoted (some resources) ≡ ok all_repos
unfolding effective_rpm_repos expand_rpm_repo_set lookup put delete ◌==◌ has_prefix split contains
    trim_right_slashes to_lower trim_left_slashes sort insert
all_repos_found = refl

-- All repositories of the project.
effective_rpm_repos-IsUnion_example : IsUnion one_host unquoted resources all_repos
effective_rpm_repos-IsUnion_example =
    effective_rpm_repos-IsUnion one_host unquoted resources all_repos all_repos_found

abbrev inputs : List DistroVersionInput
inputs = record { repo = codes "own"; set = [] } ∷ record { repo = []; set = codes "prod" } ∷ []

-- The inputs of a distro version, a repository and a set.
effective_input_repos_iff_example :
    (effective_input_repos one_host unquoted inputs (some resources)
      ≡ ok (codes "own" ∷ codes "prod-base" ∷ []))
    ↔ ((produced_names one_host unquoted (some resources) inputs
          ≡ ok (codes "own" ∷ codes "prod-base" ∷ []))
        × (is_distinct (codes "own" ∷ codes "prod-base" ∷ []) ≡ true))
effective_input_repos_iff_example =
    effective_input_repos_iff one_host unquoted (some resources) inputs
      (codes "own" ∷ codes "prod-base" ∷ [])

inputs_run :
    effective_input_repos one_host unquoted inputs (some resources)
    ≡ ok (codes "own" ∷ codes "prod-base" ∷ [])
unfolding effective_input_repos expand_rpm_repo_set lookup ◌==◌ has_prefix split contains
    trim_right_slashes to_lower trim_left_slashes
inputs_run = refl

abbrev update : ResourcesConfig
update = record {
  rpm_repos = (codes "own", record own_repo { gpg_key = codes "keys/own" }) ∷ [];
  rpm_repo_set_templates = [];
  rpm_repo_sets = [];
}

own_key_distinct : has_distinct_keys update.rpm_repos ≡ true
unfolding lookup
own_key_distinct = refl

abbrev azl : Distro
azl = record { versions = (codes "4.0", record { rpm_build = inputs; image_build = inputs }) ∷ [] }

resources_valid : validate_resources one_host unquoted resources ((codes "azl", azl) ∷ []) ≡ ok tt
unfolding validate_resources expand_rpm_repo_set lookup put delete ◌==◌ has_prefix split contains
    trim_right_slashes to_lower trim_left_slashes sort insert
resources_valid = refl

-- A distro of one version, with the same inputs for its rpms and images.
validate_resources-IsConsistent_example :
    IsConsistent one_host unquoted resources ((codes "azl", azl) ∷ [])
validate_resources-IsConsistent_example =
    validate_resources-IsConsistent one_host unquoted resources ((codes "azl", azl) ∷ [])
      resources_valid
