-- ===== src/ProjectConfig/Project.antt =====
-- internal/projectconfig/project.go: the checks of an assembled project that are about its resources
-- and its component groups.
pub mod Consistent
use azldev.Prelude.{List, [], ◌∷◌, Bool, true, false, ◌&&◌, not, if◌then◌else◌}
use azldev.Prelude.{Option, none, some, Result, ok, err, new, join, Error, context, reject_if}
use azldev.Prelude.{◌>>=◌, ◌>>◌}
use azldev.Text.{Text, ◌==◌}
use azldev.Text.Order.{sort}
use azldev.Text.Dict.{Dict, lookup, is_some}
use azldev.ProjectConfig.Repos.{RpmRepoResource, validate_rpm_repo, validate_rpm_repo_name}
use azldev.ProjectConfig.Repos.Uris.{UrlPackage, is_local_gpg_key}
use azldev.ProjectConfig.Repos.Sets.{
  RpmRepoSetTemplate, RpmRepoSet, ResourcesConfig, validate_rpm_repo_set_template,
}
use azldev.ProjectConfig.Repos.Expansion.{effective_rpm_repos, keys}
use azldev.ProjectConfig.Repos.Inputs.{DistroVersionInput, effective_input_repos}

-- DistroVersionDefinition, of which the checks read the inputs.
pub record DistroVersion : Type 0 where
  pub rpm_build : List DistroVersionInput
  pub image_build : List DistroVersionInput

-- DistroDefinition, of which the checks read the versions.
pub record Distro : Type 0 where
  pub versions : Dict DistroVersion

-- validateRpmRepoSetTemplates
unfoldable pub validate_rpm_repo_set_templates : Dict RpmRepoSetTemplate → Result (Unit {0})
unfolding validate_rpm_repo_name validate_rpm_repo_set_template
validate_rpm_repo_set_templates [] = ok tt
validate_rpm_repo_set_templates ((name, tmpl) ∷ templates) = do
  context "rpm-repo-set-template:\n%w" (validate_rpm_repo_name name)
  validate_rpm_repo_set_template tmpl
  validate_rpm_repo_set_templates templates

-- validateRpmRepoSets
unfoldable pub validate_rpm_repo_sets : Dict RpmRepoSet → Result (Unit {0})
unfolding validate_rpm_repo_name
validate_rpm_repo_sets [] = ok tt
validate_rpm_repo_sets ((name, set) ∷ sets) = do
  context "rpm-repo-set:\n%w" (validate_rpm_repo_name name)
  validate_rpm_repo_sets sets

module _ (U : UrlPackage) (quote : Text → Text) where
  -- validateRpmRepos
  unfoldable pub validate_rpm_repos : Dict RpmRepoResource → Result (Unit {0})
  unfolding validate_rpm_repo_name validate_rpm_repo
  validate_rpm_repos [] = ok tt
  validate_rpm_repos ((name, repo) ∷ repos) = do
    context "rpm-repo:\n%w" (validate_rpm_repo_name name)
    validate_rpm_repo U repo
    validate_rpm_repos repos

  -- A repository that an rpm build can use is defined, and has no local key.
  unfoldable pub check_build_repo : Option RpmRepoResource → Result (Unit {0})
  unfolding is_local_gpg_key
  check_build_repo none =
      err (new "distro %q version %q inputs.rpm-build references undefined rpm-repo %q")
  check_build_repo (some repo) =
      reject_if (is_local_gpg_key U repo.gpg_key)
        "distro %q version %q inputs.rpm-build references rpm-repo %q which has a local `gpg-key` (%q); local keys are not yet supported for mock builds (mock would evaluate the path inside the chroot) — use an http(s) URI, or only reference this repo from inputs.image-build"

  -- The loop over the repositories of the rpm build.
  unfoldable pub check_build_repos : Dict RpmRepoResource → List Text → Result (Unit {0})
  unfolding check_build_repo
  check_build_repos effective_repos [] = ok tt
  check_build_repos effective_repos (name ∷ names) = do
    check_build_repo (lookup name effective_repos)
    check_build_repos effective_repos names

  -- The loop over the repositories of the image build.
  unfoldable pub check_image_repos : Dict RpmRepoResource → List Text → Result (Unit {0})
  check_image_repos effective_repos [] = ok tt
  check_image_repos effective_repos (name ∷ names) = do
    reject_if (not (is_some (lookup name effective_repos)))
        "distro %q version %q inputs.image-build references undefined rpm-repo %q"
    check_image_repos effective_repos names

  -- The inner loop of validateDistroVersionInputs.
  unfoldable pub check_versions :
      Option ResourcesConfig → Dict RpmRepoResource → Dict DistroVersion → Result (Unit {0})
  unfolding effective_input_repos check_build_repos check_image_repos
  check_versions resources effective_repos [] = ok tt
  check_versions resources effective_repos ((version_name, version) ∷ versions) = do
    rpm_build ←
        context "distro %q version %q:\n%w"
          (effective_input_repos U quote version.rpm_build resources)
    check_build_repos effective_repos rpm_build
    image_build ←
        context "distro %q version %q:\n%w"
          (effective_input_repos U quote version.image_build resources)
    check_image_repos effective_repos image_build
    check_versions resources effective_repos versions

  -- validateDistroVersionInputs
  unfoldable pub validate_distro_version_inputs :
      Dict Distro → Option ResourcesConfig → Dict RpmRepoResource → Result (Unit {0})
  unfolding check_versions
  validate_distro_version_inputs [] resources effective_repos = ok tt
  validate_distro_version_inputs ((distro_name, distro) ∷ distros) resources effective_repos = do
    check_versions resources effective_repos distro.versions
    validate_distro_version_inputs distros resources effective_repos

  -- ProjectConfig.validate, from the checks of the repositories on.
  unfoldable pub validate_resources : ResourcesConfig → Dict Distro → Result (Unit {0})
  unfolding validate_rpm_repos validate_rpm_repo_set_templates validate_rpm_repo_sets
      effective_rpm_repos validate_distro_version_inputs
  validate_resources resources distros = do
    validate_rpm_repos resources.rpm_repos
    validate_rpm_repo_set_templates resources.rpm_repo_set_templates
    validate_rpm_repo_sets resources.rpm_repo_sets
    effective_repos ← effective_rpm_repos U quote (some resources)
    validate_distro_version_inputs distros (some resources) effective_repos
