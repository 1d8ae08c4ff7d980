-- ===== src/ProjectConfig/Sources.antt =====
-- internal/projectconfig/component.go: the source files of a component, and how they go with the
-- overlays that modify archives.
pub mod Laws
use azldev.Prelude.{List, [], ◌∷◌, Bool, true, false, ◌||◌, ◌&&◌, not, is_nil, if◌then◌else◌}
use azldev.Prelude.{Result, ok, reject_if, ◌>>=◌, ◌>>◌}
use azldev.Text.{Text, ◌==◌, codes}
use azldev.Text.Order.{contains}
use azldev.FilePath.{join}
use azldev.FilePath.Clean.{base, dir}
use azldev.ProjectConfig.Overlay.{
  ComponentOverlay, modifies_archive, targets_loose_file, make_absolute,
}

-- OriginType, by its constants; `other_origin` holds any other text.
pub data OriginType : Type 0 where
  uri_origin custom_origin overlay_origin : OriginType
  other_origin : Text → OriginType

abbrev pub is_overlay_origin : OriginType → Bool
is_overlay_origin overlay_origin = true
is_overlay_origin _ = false

abbrev pub is_custom_origin : OriginType → Bool
is_custom_origin custom_origin = true
is_custom_origin _ = false

-- OriginType.IsFetched
unfoldable pub is_fetched : OriginType → Bool
is_fetched t = not (is_overlay_origin t)

-- Origin
pub record Origin : Type 0 where
  pub origin_type : OriginType
  pub uri : Text
  pub script : Text
  pub mock_packages : List Text
  pub inputs : List Text

-- Origin.EffectiveScriptName
unfoldable pub effective_script_name : Origin → Text
effective_script_name o = if o.script == [] then [] else base o.script

-- Origin.HashInclude
unfoldable pub origin_hash_include : Origin → Text → Bool
origin_hash_include o field =
    if field == codes "Script"
    then not (o.script == [])
    else if field == codes "MockPackages"
    then not (is_nil o.mock_packages)
    else if field == codes "Inputs"
    then not (is_nil o.inputs)
    else true

-- SourceFileReference, without the component that the loader fills in.
pub record SourceFileReference : Type 0 where
  pub filename : Text
  pub hash : Text
  pub hash_type : Text
  pub origin : Origin
  pub replace_upstream : Bool
  pub replace_reason : Text

-- SourceFileReference.HashInclude
unfoldable pub source_file_hash_include : SourceFileReference → Text → Bool
source_file_hash_include r field =
    if field == codes "Origin"
    then not (r.origin.script == [])
      || not (is_nil r.origin.mock_packages)
      || not (is_nil r.origin.inputs)
    else true

abbrev pub with_script : SourceFileReference → Text → SourceFileReference
with_script f script = record f { origin = record f.origin { script = script } }

-- The loop of resolveLocalCustomScriptPaths.
unfoldable pub resolve_scripts : Text → List SourceFileReference → List SourceFileReference
unfolding effective_script_name
resolve_scripts script_dir [] = []
resolve_scripts script_dir (f ∷ files) =
    let rest = resolve_scripts script_dir files in
    if is_custom_origin f.origin.origin_type && not (f.origin.script == [])
    then with_script f (join script_dir (effective_script_name f.origin)) ∷ rest
    else f ∷ rest

-- resolveLocalCustomScriptPaths, by whether the spec is local and its path.
unfoldable pub resolve_local_custom_script_paths :
    Bool → Text → List SourceFileReference → List SourceFileReference
unfolding resolve_scripts
resolve_local_custom_script_paths is_local spec_path files =
    if not is_local || spec_path == [] then files else resolve_scripts (dir spec_path) files

-- The loop over the source files of ComponentConfig.WithAbsolutePaths.
unfoldable pub absolute_scripts : Text → List SourceFileReference → List SourceFileReference
unfolding make_absolute
absolute_scripts reference_dir [] = []
absolute_scripts reference_dir (f ∷ files) =
    let rest = absolute_scripts reference_dir files in
    if is_custom_origin f.origin.origin_type
    then with_script f (make_absolute reference_dir f.origin.script) ∷ rest
    else f ∷ rest

-- The first loop of ValidateArchiveOverlays: the archives that an overlay modifies.
unfoldable pub modified_archives : List ComponentOverlay → List Text
modified_archives [] = []
modified_archives (o ∷ overlays) =
    let rest = modified_archives overlays in if modifies_archive o then o.archive ∷ rest else rest

-- The second loop: the source files with an overlay origin, each of which an overlay has to modify.
unfoldable pub overlay_origins : List Text → List SourceFileReference → Result (List Text)
overlay_origins modified [] = ok []
overlay_origins modified (f ∷ files) = do
  reject_if (is_overlay_origin f.origin.origin_type && not (contains modified f.filename))
      "'source-files' entry for %#q has 'origin.type = overlay', but no archive-scoped overlay modifies that archive; add a matching archive overlay or remove the stale 'source-files' entry"
  rest ← overlay_origins modified files
  ok (if is_overlay_origin f.origin.origin_type then f.filename ∷ rest else rest)

-- `path_match` is `doublestar.PathMatch`, and `range` lists the keys of a map in the order in which
-- Go walks it.
module _ (path_match : Text → Text → Result Bool) (range : List Text → List Text) where
  -- The inner loop: no loose-file overlay targets the archive.
  unfoldable pub reject_loose_overlays : Text → List ComponentOverlay → Result (Unit {0})
  reject_loose_overlays archive_name [] = ok tt
  reject_loose_overlays archive_name (o ∷ overlays) = do
    matches ← targets_loose_file path_match o archive_name
    reject_if matches
        "loose-file %#q overlay targets archive %#q, which is also modified by an archive-scoped overlay; an archive and its contents cannot be modified through both overlay scopes"
    reject_loose_overlays archive_name overlays

  -- The third loop, over the modified archives.
  unfoldable pub check_archives :
      Bool → List Text → List ComponentOverlay → List Text → Result (Unit {0})
  unfolding reject_loose_overlays
  check_archives allow_missing origins overlays [] = ok tt
  check_archives allow_missing origins overlays (archive_name ∷ names) = do
    reject_if (not allow_missing && not (contains origins archive_name))
        "archive overlay for %#q requires a matching 'source-files' entry with 'origin.type = overlay'; add the entry to the component TOML, then run 'prepare-sources --allow-no-hashes' to bootstrap its hash"
    reject_loose_overlays archive_name overlays
    check_archives allow_missing origins overlays names

  -- ComponentConfig.ValidateArchiveOverlays
  unfoldable pub validate_archive_overlays :
      List ComponentOverlay → List SourceFileReference → Bool → Result (Unit {0})
  unfolding modified_archives overlay_origins check_archives
  validate_archive_overlays overlays source_files allow_missing_origins = do
    origins ← overlay_origins (modified_archives overlays) source_files
    check_archives allow_missing_origins origins overlays (range (modified_archives overlays))
