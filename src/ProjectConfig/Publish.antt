-- ===== src/ProjectConfig/Publish.antt =====
-- internal/projectconfig/component.go and package.go: the channel that a package is published to.
pub mod Segments
pub mod Channels
use azldev.Prelude.{ℕ, zero, suc, ◌+◌, List, [], ◌∷◌, Bool, true, false, ◌||◌, not, ◌=?◌}
use azldev.Prelude.{if◌then◌else◌, Option, none, some, length, drop, Result, ok}
use azldev.Prelude.{reject_if, ◌>>=◌, ◌>>◌}
use azldev.Text.{Text, ◌==◌, codes}
use azldev.Text.Order.{contains}
use azldev.Text.Dict.{Dict, lookup, put}
use azldev.Text.Search.{index}

-- end == len(pkgName) || pkgName[end] == '-', by what follows `end`
abbrev pub ends_segment : Text → Bool
ends_segment [] = true
ends_segment (c ∷ rest) = c =? b'-'

-- The loop of containsRPMSegment, on what follows `searchStart`; it has fuel for one round for each
-- character, and one.
unfoldable pub contains_segment_from : ℕ → Text → Text → Bool
unfolding index
contains_segment_from zero rest segment = false
contains_segment_from (suc fuel) rest segment = elim (index rest segment) [
  | none ↦ false
  | some i ↦ elim (ends_segment (drop (i + length segment) rest)) [
    | true ↦ true
    | false ↦ contains_segment_from fuel (drop (suc i) rest) segment
  ]
]

-- containsRPMSegment
unfoldable pub contains_rpm_segment : Text → Text → Bool
unfolding contains_segment_from
contains_rpm_segment pkg_name segment =
    contains_segment_from (suc (length pkg_name)) pkg_name segment

-- IsDebugInfoPackage
unfoldable pub is_debug_info_package : Text → Bool
unfolding contains_rpm_segment
is_debug_info_package pkg_name =
    contains_rpm_segment pkg_name (codes "-debuginfo")
    || contains_rpm_segment pkg_name (codes "-debugsource")

-- PackagePublishConfig
pub record PackagePublishConfig : Type 0 where
  pub rpm_channel : Text
  pub debug_info_channel : Text
  pub deprecated_channel : Text

-- PackagePublishConfig.EffectiveRPMChannel
unfoldable pub effective_rpm_channel : PackagePublishConfig → Text
effective_rpm_channel p = if not (p.rpm_channel == []) then p.rpm_channel else p.deprecated_channel

-- PackageConfig
pub record PackageConfig : Type 0 where
  pub publish : PackagePublishConfig

-- PackageGroupConfig
pub record PackageGroupConfig : Type 0 where
  pub description : Text
  pub packages : List Text
  pub default_package_config : PackageConfig

-- ComponentPublishConfig
pub record ComponentPublishConfig : Type 0 where
  pub rpm_channel : Text
  pub srpm_channel : Text
  pub debug_info_channel : Text

-- What the resolution reads of the component and of the project.
pub record PublishInputs : Type 0 where
  pub publish : ComponentPublishConfig
  pub packages : Dict PackageConfig
  pub default_package_config : PackageConfig
  pub package_groups : Dict PackageGroupConfig

-- packagePublishChannel
unfoldable pub package_publish_channel : PackagePublishConfig → Bool → Text
unfolding effective_rpm_channel
package_publish_channel publish is_debug_info =
    if is_debug_info then publish.debug_info_channel else effective_rpm_channel publish

-- `if channel != "" { current = channel }`
abbrev pub override : Text → Text → Text
override current channel = if not (channel == []) then channel else current

-- The channel of the component for a package of this kind.
abbrev pub component_channel : ComponentPublishConfig → Bool → Text
component_channel publish is_debug_info =
    if is_debug_info then publish.debug_info_channel else publish.rpm_channel

-- The loop over the package groups, which ends at the first group of the package.
unfoldable pub apply_package_groups : Dict PackageGroupConfig → Text → Bool → Text → Text
unfolding package_publish_channel
apply_package_groups [] pkg_name is_debug_info channel = channel
apply_package_groups ((name, group) ∷ groups) pkg_name is_debug_info channel =
    let rest = apply_package_groups groups pkg_name is_debug_info channel in
    if contains group.packages pkg_name
    then override channel
        (package_publish_channel group.default_package_config.publish is_debug_info)
    else rest

abbrev pub apply_package : Option PackageConfig → Bool → Text → Text
apply_package none is_debug_info channel = channel
apply_package (some config) is_debug_info channel =
    override channel (package_publish_channel config.publish is_debug_info)

-- ResolvePackagePublishChannel
unfoldable pub resolve_package_publish_channel : Text → PublishInputs → Text
unfolding is_debug_info_package apply_package_groups package_publish_channel
resolve_package_publish_channel pkg_name inputs =
    let is_debug_info = is_debug_info_package pkg_name in
    let default_channel =
      package_publish_channel inputs.default_package_config.publish is_debug_info in
    let of_component = override default_channel (component_channel inputs.publish is_debug_info) in
    let of_group = apply_package_groups inputs.package_groups pkg_name is_debug_info of_component in
    apply_package (lookup pkg_name inputs.packages) is_debug_info of_group

-- The loop of PackageGroupConfig.Validate.
unfoldable pub check_names : List Text → List Text → Result (Unit {0})
check_names seen [] = ok tt
check_names seen (pkg ∷ packages) = do
  reject_if (pkg == []) "packages[%d] must not be empty"
  reject_if (contains seen pkg) "package %#q appears more than once in the packages list"
  check_names (pkg ∷ seen) packages

-- PackageGroupConfig.Validate
unfoldable pub validate_package_group : PackageGroupConfig → Result (Unit {0})
unfolding check_names
validate_package_group g = check_names [] g.packages

abbrev pub is_other_group : Option Text → Text → Bool
is_other_group none group_name = false
is_other_group (some first_group) group_name = not (first_group == group_name)

-- The inner loop of validatePackageGroupMembership: the group in which each package was seen.
unfoldable pub check_packages : Text → Dict Text → List Text → Result (Dict Text)
check_packages group_name seen_in [] = ok seen_in
check_packages group_name seen_in (pkg ∷ packages) = do
  reject_if (is_other_group (lookup pkg seen_in) group_name)
      "package %#q appears in both package-group %#q and %#q; a package may only belong to one group"
  check_packages group_name (put pkg group_name seen_in) packages

-- The outer loop of validatePackageGroupMembership.
unfoldable pub check_groups : Dict Text → Dict PackageGroupConfig → Result (Unit {0})
unfolding check_packages
check_groups seen_in [] = ok tt
check_groups seen_in ((group_name, group) ∷ groups) = do
  seen_in' ← check_packages group_name seen_in group.packages
  check_groups seen_in' groups

-- validatePackageGroupMembership
unfoldable pub validate_package_group_membership : Dict PackageGroupConfig → Result (Unit {0})
unfolding check_groups
validate_package_group_membership groups = check_groups [] groups
