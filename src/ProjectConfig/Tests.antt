-- ===== src/ProjectConfig/Tests.antt =====
-- The checks of a project's configuration at concrete data.
use azldev.Prelude.{[], ◌∷◌, ◌++◌, Bool, true, false, ◌||◌, ◌&&◌, not, ◌≡◌, ◌↔◌, ◌⊎◌, refl, all}
use azldev.Prelude.{none, some, Result, ok, is_ok}
use azldev.Text.{Text, ◌==◌, codes, to_lower, has_suffix, has_prefix, split, is_space}
use azldev.Text.Order.{contains, contains-sort, sort}
use azldev.Text.Dict.{lookup, put, delete}
use azldev.Archive.{is_archive_name}
use azldev.FilePath.{validate_filename}
use azldev.FilePath.Clean.{
  is_abs, clean, base, kept_elements, add_element, render, after_last_slash, trim_right_slashes,
  trim_left_slashes,
}
use azldev.ProjectConfig.Overlay.{ComponentOverlay, search_and_replace_in_file, modifies_archive}
use azldev.ProjectConfig.Overlay.Validation.{Checkers, validate}
use azldev.ProjectConfig.Overlay.Laws.{
  is_given, is_valid_archive, has_required_fields, is_valid_metadata, is_ok-validate,
}
use azldev.ProjectConfig.Sources.{
  SourceFileReference, overlay_origin, is_overlay_origin, validate_archive_overlays,
}
use azldev.ProjectConfig.Sources.Laws.{
  is_modified, has_overlay_origin, is_untargeted, is_ok-validate_archive_overlays,
}
use azldev.ProjectConfig.Publish.{
  PackageConfig, PackageGroupConfig, PublishInputs, is_debug_info_package,
  resolve_package_publish_channel, validate_package_group_membership, package_publish_channel,
  component_channel,
}
use azldev.ProjectConfig.Publish.Segments.{HasSegment, is_debug_info_package_iff}
use azldev.ProjectConfig.Publish.Channels.{
  first_given, own_channel, group_channel, resolve_package_publish_channel-first_given,
}

abbrev checkers : Checkers
checkers = record {
  compile = λ pattern'. ok tt;
  validate_pattern = λ pattern'. true;
  validate_struct = λ m. ok tt;
}

abbrev archive_overlay : ComponentOverlay
archive_overlay = record {
  overlay_type = search_and_replace_in_file;
  description = [];
  filename = codes "src/*.c";
  archive = codes "pkg-1.0.tar.gz";
  section_name = [];
  package_name = [];
  tag = [];
  value = [];
  regex = codes "foo";
  replacement = codes "bar";
  lines = [];
  source = [];
  metadata = none;
}

-- The checks of an overlay at one that modifies files of an archive.
is_ok-validate_example : is_ok (validate checkers archive_overlay) ≡ (
    is_valid_archive checkers archive_overlay
    && (not (is_given archive_overlay.archive) || is_given archive_overlay.filename)
    && has_required_fields checkers archive_overlay.overlay_type archive_overlay
    && is_valid_metadata checkers archive_overlay.metadata)
is_ok-validate_example = is_ok-validate checkers archive_overlay

archive_overlay_valid : is_ok (validate checkers archive_overlay) ≡ true
unfolding validate is_archive_name to_lower has_suffix validate_filename is_abs clean base
    kept_elements add_element render after_last_slash trim_right_slashes trim_left_slashes split
    is_space ◌==◌
archive_overlay_valid = refl

-- A matcher of exact names.
abbrev exact_match : Text → Text → Result Bool
exact_match pattern' filename = ok (pattern' == filename)

abbrev archive_file : SourceFileReference
archive_file = record {
  filename = codes "pkg-1.0.tar.gz";
  hash = codes "00";
  hash_type = codes "SHA256";
  origin = record {
    origin_type = overlay_origin;
    uri = [];
    script = [];
    mock_packages = [];
    inputs = [];
  };
  replace_upstream = false;
  replace_reason = [];
}

-- The check of archives and source files at one archive, walking the names in their order.
is_ok-validate_archive_overlays_example :
    is_ok
      (validate_archive_overlays exact_match sort (archive_overlay ∷ []) (archive_file ∷ []) false)
    ≡ (all
          (λ f.
            not (is_overlay_origin f.origin.origin_type)
            || is_modified (archive_overlay ∷ []) f.filename)
          (archive_file ∷ [])
        && all
            (λ o.
              not (modifies_archive o)
              || (false || has_overlay_origin (archive_file ∷ []) o.archive)
                && is_untargeted exact_match sort (archive_overlay ∷ []) o.archive)
            (archive_overlay ∷ []))
is_ok-validate_archive_overlays_example =
    is_ok-validate_archive_overlays exact_match sort contains-sort (archive_overlay ∷ [])
      (archive_file ∷ []) false

-- The names of debuginfo packages at one that is none.
is_debug_info_package_iff_example : (is_debug_info_package (codes "elfutils-debuginfod") ≡ true) ↔ (
    HasSegment (codes "elfutils-debuginfod") (codes "-debuginfo")
    ⊎ HasSegment (codes "elfutils-debuginfod") (codes "-debugsource"))
is_debug_info_package_iff_example = is_debug_info_package_iff (codes "elfutils-debuginfod")

is_debug_info_package_runs : is_debug_info_package (codes "kernel-debuginfo-common-x86_64") ≡ true
unfolding is_debug_info_package has_prefix
is_debug_info_package_runs = refl

abbrev channels_config : Text → PackageConfig
channels_config channel = record {
  publish = record { rpm_channel = channel; debug_info_channel = []; deprecated_channel = [] };
}

abbrev tools_group : PackageGroupConfig
tools_group = record {
  description = [];
  packages = codes "ls" ∷ codes "cat" ∷ [];
  default_package_config = channels_config (codes "sdk");
}

abbrev publish_inputs : PublishInputs
publish_inputs = record {
  publish = record { rpm_channel = codes "base"; srpm_channel = []; debug_info_channel = [] };
  packages = [];
  default_package_config = channels_config (codes "extra");
  package_groups = (codes "tools", tools_group) ∷ [];
}

groups_valid : validate_package_group_membership publish_inputs.package_groups ≡ ok tt
unfolding validate_package_group_membership ◌==◌ lookup put delete
groups_valid = refl

tools_found : lookup (codes "tools") publish_inputs.package_groups ≡ some tools_group
unfolding lookup ◌==◌
tools_found = refl

tools_member : contains tools_group.packages (codes "cat") ≡ true
unfolding contains ◌==◌
tools_member = refl

-- The channels of a package of a group.
resolve_package_publish_channel-first_given_example :
    resolve_package_publish_channel (codes "cat") publish_inputs ≡ (
      let d = is_debug_info_package (codes "cat") in
      first_given (
        own_channel (lookup (codes "cat") publish_inputs.packages) d
        ++ (group_channel (some tools_group) d
            ++ component_channel publish_inputs.publish d
              ∷ package_publish_channel publish_inputs.default_package_config.publish d
              ∷ [])))
resolve_package_publish_channel-first_given_example =
    resolve_package_publish_channel-first_given (codes "cat") publish_inputs (some tools_group)
      groups_valid (codes "tools", tools_found, tools_member)
