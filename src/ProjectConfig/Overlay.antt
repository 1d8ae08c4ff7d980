-- ===== src/ProjectConfig/Overlay.antt =====
-- internal/projectconfig/overlay.go: overlays on a component's spec and sources.
pub mod Validation
pub mod Laws
use azldev.Prelude.{List, [], ◌∷◌, ◌++◌, Bool, true, false, ◌||◌, ◌&&◌, not, if◌then◌else◌}
use azldev.Prelude.{Option, none, some, Result, ok, err, wrap, context, ◌>>=◌}
use azldev.Text.{Text, ◌==◌, codes}
use azldev.FilePath.{join}
use azldev.FilePath.Clean.{base, is_abs}
use azldev.ProjectConfig.Metadata.{OverlayMetadata}

-- ComponentOverlayType, by its constants; `unknown` holds any other text.
pub data OverlayType : Type 0 where
  add_spec_tag insert_spec_tag set_spec_tag update_spec_tag remove_spec_tag : OverlayType
  prepend_spec_lines append_spec_lines search_and_replace_in_spec : OverlayType
  remove_section remove_subpackage add_patch remove_patch : OverlayType
  prepend_lines_to_file search_and_replace_in_file add_file remove_file rename_file : OverlayType
  unknown : Text → OverlayType

-- ComponentOverlay
pub record ComponentOverlay : Type 0 where
  pub overlay_type : OverlayType
  pub description : Text
  pub filename : Text
  pub archive : Text
  pub section_name : Text
  pub package_name : Text
  pub tag : Text
  pub value : Text
  pub regex : Text
  pub replacement : Text
  pub lines : List Text
  pub source : Text
  pub metadata : Option OverlayMetadata

-- EffectiveSourceName
unfoldable pub effective_source_name : ComponentOverlay → Text
effective_source_name c =
    if c.source == [] then [] else if not (c.filename == []) then c.filename else base c.source

-- SourceContentIdentity; `hash` is `ComputeFileHash` of a file with SHA-256.
unfoldable pub source_content_identity : (Text → Result Text) → ComponentOverlay → Result Text
unfolding effective_source_name
source_content_identity hash c = if effective_source_name c == [] then ok [] else do
  content_hash ← context "hashing overlay source %#q:\n%w" (hash c.source)
  ok (effective_source_name c ++ (b':' ∷ content_hash))

-- makeAbsolute
unfoldable pub make_absolute : Text → Text → Text
make_absolute reference_dir file_path =
    if file_path == []
    then []
    else if is_abs file_path
    then file_path
    else join reference_dir file_path

-- WithAbsolutePaths
unfoldable pub with_absolute_paths : Text → ComponentOverlay → ComponentOverlay
unfolding make_absolute
with_absolute_paths reference_dir c = record c { source = make_absolute reference_dir c.source }

-- The types that ModifiesSpec lists.
abbrev pub is_spec_type : OverlayType → Bool
is_spec_type add_spec_tag = true
is_spec_type insert_spec_tag = true
is_spec_type set_spec_tag = true
is_spec_type update_spec_tag = true
is_spec_type remove_spec_tag = true
is_spec_type prepend_spec_lines = true
is_spec_type append_spec_lines = true
is_spec_type search_and_replace_in_spec = true
is_spec_type remove_section = true
is_spec_type remove_subpackage = true
is_spec_type add_patch = true
is_spec_type remove_patch = true
is_spec_type _ = false

-- ModifiesSpec
unfoldable pub modifies_spec : ComponentOverlay → Bool
modifies_spec c = is_spec_type c.overlay_type

-- ArchiveTarget: the archive and the path inside it.
unfoldable pub archive_target : ComponentOverlay → Option (Text × Text)
archive_target c =
    if c.archive == [] || c.filename == [] then none else some (c.archive, c.filename)

-- The types that SupportsArchiveScope lists.
abbrev pub is_archive_type : OverlayType → Bool
is_archive_type remove_file = true
is_archive_type search_and_replace_in_file = true
is_archive_type _ = false

-- SupportsArchiveScope
unfoldable pub supports_archive_scope : ComponentOverlay → Bool
supports_archive_scope c = is_archive_type c.overlay_type

abbrev pub has_target : Option (Text × Text) → Bool
has_target none = false
has_target (some target) = true

-- ModifiesArchive
unfoldable pub modifies_archive : ComponentOverlay → Bool
unfolding supports_archive_scope archive_target
modifies_archive c = supports_archive_scope c && has_target (archive_target c)

-- The types that ModifiesLooseFiles lists.
abbrev pub is_loose_type : OverlayType → Bool
is_loose_type prepend_lines_to_file = true
is_loose_type search_and_replace_in_file = true
is_loose_type add_file = true
is_loose_type remove_file = true
is_loose_type rename_file = true
is_loose_type add_patch = true
is_loose_type remove_patch = true
is_loose_type _ = false

-- ModifiesLooseFiles
unfoldable pub modifies_loose_files : ComponentOverlay → Bool
unfolding modifies_archive
modifies_loose_files c = not (modifies_archive c) && is_loose_type c.overlay_type

-- The match of the file pattern that ends TargetsLooseFile; `path_match` is `doublestar.PathMatch`.
abbrev pub matches_pattern : (Text → Text → Result Bool) → ComponentOverlay → Text → Result Bool
matches_pattern path_match c filename =
    context "matching overlay file pattern %#q:\n%w" (path_match c.filename filename)

-- The switch of TargetsLooseFile.
unfoldable pub targets_file :
    (Text → Text → Result Bool) → OverlayType → ComponentOverlay → Text → Result Bool
unfolding effective_source_name
targets_file path_match add_file c filename = ok (effective_source_name c == filename)
targets_file path_match add_patch c filename = ok (effective_source_name c == filename)
targets_file path_match rename_file c filename =
    if c.replacement == filename then ok true else matches_pattern path_match c filename
targets_file path_match _ c filename = matches_pattern path_match c filename

-- TargetsLooseFile
unfoldable pub targets_loose_file :
    (Text → Text → Result Bool) → ComponentOverlay → Text → Result Bool
unfolding modifies_loose_files targets_file
targets_loose_file path_match c filename =
    if not (modifies_loose_files c)
    then ok false
    else targets_file path_match c.overlay_type c filename

-- ComponentOverlay.HashInclude
unfoldable pub hash_include : ComponentOverlay → Text → Bool
hash_include c field = if field == codes "Archive" then not (c.archive == []) else true
