-- ===== src/ProjectConfig/Repos.antt =====
-- internal/projectconfig/resources.go: named RPM repositories, and their checks one at a time.
pub mod Uris
pub mod Sets
pub mod Expansion
pub mod Inputs
pub mod Keys
pub mod Merge
mod Tests
use azldev.Prelude.{
  ℕ, List, [], ◌∷◌, ◌++◌, Bool, true, false, ◌||◌, ◌&&◌, not, ◌=?◌, is_nil, any, all,
}
use azldev.Prelude.{if◌then◌else◌, leb, Result, ok, err, new, reject_if, ◌>>=◌, ◌>>◌}
use azldev.Text.{Text, ◌==◌, codes}
use azldev.Text.Dict.{Dict, put}
use azldev.ProjectConfig.Repos.Uris.{
  UrlPackage, validate_no_unsafe_chars, validate_remote_uri, validate_gpg_key, absolutize_key_path,
  is_letter, is_digit,
}

-- RpmRepoType: a text, of which one is known.
abbrev pub rpm_md : Text
rpm_md = codes "rpm-md"

-- RpmRepoType.IsValid
unfoldable pub is_valid_repo_type : Text → Bool
is_valid_repo_type t = t == [] || t == rpm_md

-- RpmRepoResource
pub record RpmRepoResource : Type 0 where
  pub description : Text
  pub repo_type : Text
  pub base_uri : Text
  pub metalink : Text
  pub disable_gpg_check : Bool
  pub gpg_key : Text
  pub arches : List Text

-- RpmRepoResource.EffectiveType
unfoldable pub effective_type : RpmRepoResource → Text
effective_type r = if r.repo_type == [] then rpm_md else r.repo_type

-- RpmRepoResource.IsAvailableForArch
unfoldable pub is_available_for_arch : RpmRepoResource → Text → Bool
is_available_for_arch r arch = if is_nil r.arches then true else any (λ a. a == arch) r.arches

-- A rune that rpmRepoNameRE has after the first.
abbrev pub is_name_rune : ℕ → Bool
is_name_rune c = is_letter c || is_digit c || c =? b'_' || c =? b'.' || c =? b':' || c =? b'-'

-- rpmRepoNameRE.MatchString
abbrev pub matches_repo_name : Text → Bool
matches_repo_name [] = false
matches_repo_name (c ∷ name) = (is_letter c || is_digit c) && all is_name_rune name

-- validateRpmRepoName
unfoldable pub validate_rpm_repo_name : Text → Result (Unit {0})
validate_rpm_repo_name name = do
  reject_if (name == []) "rpm-repo name must not be empty"
  reject_if (not (matches_repo_name name))
      "rpm-repo name %#q is invalid; must match %s (repo names are projected verbatim into dnf section headers and kiwi --add-repo arguments)"

module _ (U : UrlPackage) where
  -- `if uri != "" { validateRemoteURI(uri) }`
  unfoldable pub validate_given_uri : Text → Result (Unit {0})
  unfolding validate_remote_uri
  validate_given_uri uri = if not (uri == []) then validate_remote_uri U uri else ok tt

  -- `if key != "" { validateGPGKey(key) }`
  unfoldable pub validate_given_key : Text → Result (Unit {0})
  unfolding validate_gpg_key
  validate_given_key key = if not (key == []) then validate_gpg_key U key else ok tt

  -- validateRpmRepoSource
  unfoldable pub validate_rpm_repo_source : RpmRepoResource → Result (Unit {0})
  unfolding effective_type validate_given_uri
  validate_rpm_repo_source repo = do
    reject_if (effective_type repo == rpm_md && repo.base_uri == [] && repo.metalink == [])
        "rpm-repo %#q must specify exactly one of `base-uri` or `metalink`"
    reject_if
        (effective_type repo == rpm_md && not (repo.base_uri == []) && not (repo.metalink == []))
        "rpm-repo %#q must not specify both `base-uri` and `metalink`"
    validate_given_uri repo.base_uri
    validate_given_uri repo.metalink

  -- validateRpmRepoGPG
  unfoldable pub validate_rpm_repo_gpg : RpmRepoResource → Result (Unit {0})
  unfolding validate_given_key
  validate_rpm_repo_gpg repo = do
    reject_if (not repo.disable_gpg_check && repo.gpg_key == [])
        "rpm-repo %#q has GPG checking enabled (the default) but no `gpg-key`; either set `gpg-key = \"...\"` or opt out with `disable-gpg-check = true`"
    validate_given_key repo.gpg_key

  -- validateRpmRepo
  unfoldable pub validate_rpm_repo : RpmRepoResource → Result (Unit {0})
  unfolding is_valid_repo_type validate_no_unsafe_chars validate_rpm_repo_source
      validate_rpm_repo_gpg
  validate_rpm_repo repo = do
    reject_if (not (is_valid_repo_type (effective_type repo)))
        "rpm-repo %#q has unsupported type %#q"
    validate_no_unsafe_chars repo.description
    validate_rpm_repo_source repo
    validate_rpm_repo_gpg repo
