-- ===== src/ProjectConfig/Overlay/Validation.antt =====
-- internal/projectconfig/overlay.go: Validate, with the checks for each type of overlay.
use azldev.Prelude.{[], Bool, true, false, ◌&&◌, not, is_nil, if◌then◌else◌}
use azldev.Prelude.{Option, none, some, Result, ok, err, new, context, reject_if, ◌>>◌}
use azldev.Text.{Text, ◌==◌}
use azldev.Archive.{is_archive_name}
use azldev.FilePath.{validate_filename}
use azldev.FilePath.Clean.{base, is_abs}
use azldev.ProjectConfig.Metadata.{OverlayMetadata, validate_overlay_metadata}
use azldev.ProjectConfig.Overlay.{
  ComponentOverlay, OverlayType, add_spec_tag, insert_spec_tag, set_spec_tag, update_spec_tag,
  remove_spec_tag, prepend_spec_lines, append_spec_lines, search_and_replace_in_spec,
  remove_section, remove_subpackage, add_patch, remove_patch, prepend_lines_to_file,
  search_and_replace_in_file, add_file, remove_file, rename_file, unknown, supports_archive_scope,
}

-- What Validate uses of other packages: `regexp.Compile`, `doublestar.ValidatePattern` and
-- `metadataValidator.Struct`.
pub record Checkers : Type 0 where
  pub compile : Text → Result (Unit {0})
  pub validate_pattern : Text → Bool
  pub validate_struct : OverlayMetadata → Result (Unit {0})

abbrev is_remove_spec_tag : OverlayType → Bool
is_remove_spec_tag remove_spec_tag = true
is_remove_spec_tag _ = false

abbrev is_prepend_lines_to_file : OverlayType → Bool
is_prepend_lines_to_file prepend_lines_to_file = true
is_prepend_lines_to_file _ = false

abbrev is_add_patch : OverlayType → Bool
is_add_patch add_patch = true
is_add_patch _ = false

-- requireSectionIfPackageSet
unfoldable pub require_section_if_package_set : ComponentOverlay → Result (Unit {0})
require_section_if_package_set c =
    reject_if (c.section_name == [] && not (c.package_name == []))
      "overlay type %#q requires %#q field when %#q is set: %s"

-- requireRelativePath
unfoldable pub require_relative_path : Text → Result (Unit {0})
require_relative_path path = do
  reject_if (path == []) "overlay type %#q requires %#q field: %s"
  reject_if (is_abs path) "overlay type %#q requires %#q to be a relative path; found %#q"

-- requireFileBasename
unfoldable pub require_file_basename : Text → Result (Unit {0})
require_file_basename name = do
  reject_if (name == []) "overlay type %#q requires %#q field: %s"
  reject_if (not (name == base name))
      "overlay type %#q requires %#q to be a filename only (not a path); found %#q"

-- validateSpecTagFields
unfoldable pub validate_spec_tag_fields : ComponentOverlay → Result (Unit {0})
validate_spec_tag_fields c = do
  reject_if (c.tag == []) "overlay type %#q requires %#q field: %s"
  reject_if (not (is_remove_spec_tag c.overlay_type) && c.value == [])
      "overlay type %#q requires %#q field: %s"

-- validateSpecLineOverlay
unfoldable pub validate_spec_line_overlay : ComponentOverlay → Result (Unit {0})
unfolding require_section_if_package_set
validate_spec_line_overlay c = do
  reject_if (is_nil c.lines) "overlay type %#q requires %#q field: %s"
  require_section_if_package_set c

-- validateRemoveFileOverlay
unfoldable pub validate_remove_file_overlay : ComponentOverlay → Result (Unit {0})
unfolding require_relative_path
validate_remove_file_overlay c = require_relative_path c.filename

-- validateAddFileOverlay
unfoldable pub validate_add_file_overlay : ComponentOverlay → Result (Unit {0})
unfolding require_relative_path
validate_add_file_overlay c = do
  require_relative_path c.filename
  reject_if (c.source == []) "overlay type %#q requires %#q field: %s"

-- validateRenameFileOverlay
unfoldable pub validate_rename_file_overlay : ComponentOverlay → Result (Unit {0})
unfolding require_relative_path require_file_basename
validate_rename_file_overlay c = do
  require_relative_path c.filename
  require_file_basename c.replacement

-- validateRemoveSectionOverlay
unfoldable pub validate_remove_section_overlay : ComponentOverlay → Result (Unit {0})
validate_remove_section_overlay c =
    reject_if (c.section_name == []) "overlay type %#q requires %#q field: %s"

-- validateRemoveSubpackageOverlay
unfoldable pub validate_remove_subpackage_overlay : ComponentOverlay → Result (Unit {0})
validate_remove_subpackage_overlay c = do
  reject_if (c.package_name == []) "overlay type %#q requires %#q field: %s"
  reject_if (not (c.section_name == [])) "overlay type %#q does not accept %#q field: %s"

module _ (K : Checkers) where
  -- validateRegex
  unfoldable pub validate_regex : Text → Result (Unit {0})
  validate_regex pattern' = context "invalid regex %#q in overlay %q:\n%w" (K.compile pattern')

  -- validateGlobPattern
  unfoldable pub validate_glob_pattern : Text → Result (Unit {0})
  validate_glob_pattern pattern' =
      reject_if (not (K.validate_pattern pattern')) "invalid glob pattern %#q in overlay %q"

  -- validateSpecSearchReplaceOverlay
  unfoldable pub validate_spec_search_replace_overlay : ComponentOverlay → Result (Unit {0})
  unfolding validate_regex require_section_if_package_set
  validate_spec_search_replace_overlay c = do
    reject_if (c.regex == []) "overlay type %#q requires %#q field: %s"
    validate_regex c.regex
    require_section_if_package_set c

  -- The rest of validateFileOverlay, by the test for file-prepend-lines.
  unfoldable pub validate_file_change : Bool → ComponentOverlay → Result (Unit {0})
  unfolding validate_regex
  validate_file_change true c = reject_if (is_nil c.lines) "overlay type %#q requires %#q field: %s"
  validate_file_change false c = do
    reject_if (c.regex == []) "overlay type %#q requires %#q field: %s"
    validate_regex c.regex

  -- validateFileOverlay
  unfoldable pub validate_file_overlay : ComponentOverlay → Result (Unit {0})
  unfolding require_relative_path validate_file_change
  validate_file_overlay c = do
    require_relative_path c.filename
    validate_file_change (is_prepend_lines_to_file c.overlay_type) c

  -- validatePatchOverlay, for patch-add
  unfoldable pub validate_add_patch : ComponentOverlay → Result (Unit {0})
  unfolding require_relative_path
  validate_add_patch c = do
    reject_if (c.source == []) "overlay type %#q requires %#q field: %s"
    if not (c.filename == []) then require_relative_path c.filename else ok tt

  -- validatePatchOverlay, for patch-remove
  unfoldable pub validate_remove_patch : ComponentOverlay → Result (Unit {0})
  unfolding require_relative_path validate_glob_pattern
  validate_remove_patch c = do require_relative_path c.filename; validate_glob_pattern c.filename

  -- validatePatchOverlay
  unfoldable pub validate_patch_overlay : ComponentOverlay → Result (Unit {0})
  unfolding validate_add_patch validate_remove_patch
  validate_patch_overlay c =
      if is_add_patch c.overlay_type then validate_add_patch c else validate_remove_patch c

  -- validateArchiveField
  unfoldable pub validate_archive_field : ComponentOverlay → Result (Unit {0})
  unfolding supports_archive_scope
  validate_archive_field c = if c.archive == [] then ok tt else do
    reject_if (not (is_archive_name c.archive))
        "overlay 'archive' field %#q is not a recognized archive name: %s"
    context "unsafe overlay 'archive' field %#q: %s:\n%w" (validate_filename c.archive)
    reject_if (not (supports_archive_scope c))
        "overlay type %#q does not support archive-scoped file paths: %s"
    reject_if (c.filename == []) "overlay type %#q requires %#q field: %s"

  -- The switch of validateRequiredFields.
  unfoldable pub validate_by_type : OverlayType → ComponentOverlay → Result (Unit {0})
  unfolding validate_spec_tag_fields validate_spec_line_overlay validate_spec_search_replace_overlay
      validate_file_overlay validate_add_file_overlay validate_remove_file_overlay
      validate_rename_file_overlay validate_remove_section_overlay
      validate_remove_subpackage_overlay validate_patch_overlay
  validate_by_type add_spec_tag c = validate_spec_tag_fields c
  validate_by_type insert_spec_tag c = validate_spec_tag_fields c
  validate_by_type set_spec_tag c = validate_spec_tag_fields c
  validate_by_type update_spec_tag c = validate_spec_tag_fields c
  validate_by_type remove_spec_tag c = validate_spec_tag_fields c
  validate_by_type prepend_spec_lines c = validate_spec_line_overlay c
  validate_by_type append_spec_lines c = validate_spec_line_overlay c
  validate_by_type search_and_replace_in_spec c = validate_spec_search_replace_overlay c
  validate_by_type prepend_lines_to_file c = validate_file_overlay c
  validate_by_type search_and_replace_in_file c = validate_file_overlay c
  validate_by_type add_file c = validate_add_file_overlay c
  validate_by_type remove_file c = validate_remove_file_overlay c
  validate_by_type rename_file c = validate_rename_file_overlay c
  validate_by_type remove_section c = validate_remove_section_overlay c
  validate_by_type remove_subpackage c = validate_remove_subpackage_overlay c
  validate_by_type add_patch c = validate_patch_overlay c
  validate_by_type remove_patch c = validate_patch_overlay c
  validate_by_type (unknown name) c = err (new "unknown overlay type %#q: %#q")

  -- validateRequiredFields
  unfoldable pub validate_required_fields : ComponentOverlay → Result (Unit {0})
  unfolding validate_archive_field validate_by_type
  validate_required_fields c = do validate_archive_field c; validate_by_type c.overlay_type c

  unfoldable pub validate_metadata : Option OverlayMetadata → Result (Unit {0})
  unfolding validate_overlay_metadata
  validate_metadata none = ok tt
  validate_metadata (some m) =
      context "invalid metadata for overlay %q:\n%w" (validate_overlay_metadata K.validate_struct m)

  -- Validate
  unfoldable pub validate : ComponentOverlay → Result (Unit {0})
  unfolding validate_required_fields validate_metadata
  validate c = do validate_required_fields c; validate_metadata c.metadata
