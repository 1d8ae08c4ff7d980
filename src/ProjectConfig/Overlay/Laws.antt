-- ===== src/ProjectConfig/Overlay/Laws.antt =====
-- internal/projectconfig/overlay.go: what a valid overlay has, and what it may change.
use azldev.Prelude.{[], ◌∷◌, Bool, true, false, ◌≡◌, refl, ◌||◌, ◌&&◌, not, is_nil}
use azldev.Prelude.{Option, none, some, is_ok, arith}
use azldev.Text.{Text, ◌==◌}
use azldev.Archive.{is_archive_name}
use azldev.FilePath.{validate_filename}
use azldev.FilePath.Clean.{base, is_abs}
use azldev.ProjectConfig.Metadata.{OverlayMetadata, validate_overlay_metadata}
use azldev.ProjectConfig.Overlay.{
  ComponentOverlay, OverlayType, add_spec_tag, insert_spec_tag, set_spec_tag, update_spec_tag,
  remove_spec_tag, prepend_spec_lines, append_spec_lines, search_and_replace_in_spec,
  remove_section, remove_subpackage, add_patch, remove_patch, prepend_lines_to_file,
  search_and_replace_in_file, add_file, remove_file, rename_file, unknown, is_archive_type,
  is_spec_type, is_loose_type, modifies_spec, modifies_archive, modifies_loose_files,
  archive_target,
}
use azldev.ProjectConfig.Overlay.Validation.{
  Checkers, validate_by_type, validate_archive_field, validate_metadata, validate,
}

abbrev pub is_given : Text → Bool
is_given t = not (t == [])

abbrev pub is_relative : Text → Bool
is_relative path = is_given path && not (is_abs path)

-- A package qualifies a section.
abbrev pub is_section_given : ComponentOverlay → Bool
is_section_given c = is_given c.section_name || not (is_given c.package_name)

abbrev pub is_valid_metadata : Checkers → Option OverlayMetadata → Bool
is_valid_metadata K none = true
is_valid_metadata K (some m) = is_ok (validate_overlay_metadata K.validate_struct m)

module _ (K : Checkers) where
  abbrev pub is_regex : Text → Bool
  is_regex r = is_given r && is_ok (K.compile r)

  -- The fields that each type of overlay needs.
  abbrev pub has_required_fields : OverlayType → ComponentOverlay → Bool
  has_required_fields add_spec_tag c = is_given c.tag && is_given c.value
  has_required_fields insert_spec_tag c = is_given c.tag && is_given c.value
  has_required_fields set_spec_tag c = is_given c.tag && is_given c.value
  has_required_fields update_spec_tag c = is_given c.tag && is_given c.value
  has_required_fields remove_spec_tag c = is_given c.tag
  has_required_fields prepend_spec_lines c = not (is_nil c.lines) && is_section_given c
  has_required_fields append_spec_lines c = not (is_nil c.lines) && is_section_given c
  has_required_fields search_and_replace_in_spec c = is_regex c.regex && is_section_given c
  has_required_fields remove_section c = is_given c.section_name
  has_required_fields remove_subpackage c = is_given c.package_name && not (is_given c.section_name)
  has_required_fields add_patch c = is_given c.source && not (is_abs c.filename)
  has_required_fields remove_patch c = is_relative c.filename && K.validate_pattern c.filename
  has_required_fields prepend_lines_to_file c = is_relative c.filename && not (is_nil c.lines)
  has_required_fields search_and_replace_in_file c = is_relative c.filename && is_regex c.regex
  has_required_fields add_file c = is_relative c.filename && is_given c.source
  has_required_fields remove_file c = is_relative c.filename
  has_required_fields rename_file c =
      is_relative c.filename && is_given c.replacement && c.replacement == base c.replacement
  has_required_fields (unknown name) c = false

  -- An archive is named like one, and only the types that change files inside an archive have it.
  abbrev pub is_valid_archive : ComponentOverlay → Bool
  is_valid_archive c =
      not (is_given c.archive)
      || is_archive_name c.archive
        && is_ok (validate_filename c.archive)
        && is_archive_type c.overlay_type

  is_abs-not_given : (path : Text) → is_given path ≡ false → is_abs path ≡ false
  unfolding is_abs ◌==◌
  is_abs-not_given [] h = refl
  is_abs-not_given (x ∷ path) h = ground arith

  is_ok-validate_by_type :
      (t : OverlayType) (c : ComponentOverlay)
      → c.overlay_type ≡ t
      → is_ok (validate_by_type K t c) ≡ has_required_fields t c
  unfolding validate_by_type
  is_ok-validate_by_type add_spec_tag c e = ground arith
  is_ok-validate_by_type insert_spec_tag c e = ground arith
  is_ok-validate_by_type set_spec_tag c e = ground arith
  is_ok-validate_by_type update_spec_tag c e = ground arith
  is_ok-validate_by_type remove_spec_tag c e = ground arith
  is_ok-validate_by_type prepend_spec_lines c e = ground arith
  is_ok-validate_by_type append_spec_lines c e = ground arith
  is_ok-validate_by_type search_and_replace_in_spec c e = ground arith
  is_ok-validate_by_type remove_section c e = ground arith
  is_ok-validate_by_type remove_subpackage c e = ground arith
  is_ok-validate_by_type add_patch c e = ground (arith, is_abs-not_given c.filename)
  is_ok-validate_by_type remove_patch c e = ground arith
  is_ok-validate_by_type prepend_lines_to_file c e = ground arith
  is_ok-validate_by_type search_and_replace_in_file c e = ground arith
  is_ok-validate_by_type add_file c e = ground arith
  is_ok-validate_by_type remove_file c e = ground arith
  is_ok-validate_by_type rename_file c e = ground arith
  is_ok-validate_by_type (unknown name) c e = refl

  is_ok-validate_archive_field :
      (c : ComponentOverlay)
      → is_ok (validate_archive_field K c)
        ≡ (is_valid_archive c && (not (is_given c.archive) || is_given c.filename))
  unfolding validate_archive_field
  is_ok-validate_archive_field c = ground arith

  is_ok-validate_metadata :
      (m : Option OverlayMetadata) → is_ok (validate_metadata K m) ≡ is_valid_metadata K m
  unfolding validate_metadata
  is_ok-validate_metadata none = refl
  is_ok-validate_metadata (some m) = ground arith

  -- Validate accepts an overlay exactly if it has the fields that its type needs, its archive is valid
  -- and comes with a file, and its metadata is valid.
  pub is_ok-validate :
      (c : ComponentOverlay)
      → is_ok (validate K c) ≡ (
          is_valid_archive c
          && (not (is_given c.archive) || is_given c.filename)
          && has_required_fields c.overlay_type c
          && is_valid_metadata K c.metadata)
  unfolding validate
  is_ok-validate c = ground (
    arith,
    is_ok-validate_archive_field c,
    is_ok-validate_by_type c.overlay_type c refl,
    is_ok-validate_metadata c.metadata,
  )

  of_archive_type :
      (t : OverlayType) (c : ComponentOverlay)
      → is_archive_type t ≡ true
      → has_required_fields t c ≡ true
      → (is_spec_type t ≡ false) × (is_relative c.filename ≡ true)
  of_archive_type remove_file c a h = ground arith
  of_archive_type search_and_replace_in_file c a h = ground arith
  of_archive_type _ c a h = cc

  of_some_type :
      (t : OverlayType) (c : ComponentOverlay)
      → has_required_fields t c ≡ true
      → (is_spec_type t || is_loose_type t) ≡ true
  of_some_type (unknown name) c h = cc
  of_some_type _ c h = refl

  -- The scopes of a valid overlay: it changes the spec, loose files or an archive; if it names an
  -- archive it changes that alone, in files of the archive that are named relative to its root, and
  -- if it names none it changes no archive.
  validate-scope :
      (c : ComponentOverlay)
      → is_ok (validate K c) ≡ true
      → (modifies_archive c ≡ is_given c.archive)
        × ((modifies_spec c || modifies_loose_files c || modifies_archive c) ≡ true)
        × (is_given c.archive ≡ true
            → (modifies_spec c ≡ false)
              × (modifies_loose_files c ≡ false)
              × (archive_target c ≡ some (c.archive, c.filename))
              × (is_relative c.filename ≡ true))
  unfolding modifies_archive modifies_spec modifies_loose_files
  validate-scope c h =
      unfold archive_target in
      ground
        (arith, is_ok-validate c, of_archive_type c.overlay_type c, of_some_type c.overlay_type c)
