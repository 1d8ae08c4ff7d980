-- ===== src/ProjectConfig/Sources/Laws.antt =====
-- internal/projectconfig/component.go: when ValidateArchiveOverlays accepts a component.
use azldev.Prelude.{List, [], ◌∷◌, Bool, false, ◌||◌, ◌&&◌, not, ◌≡◌, refl, any, all}
use azldev.Prelude.{ap, Result, ok, err, is_ok, arith, Result-cases, inl, inr, ◌∙◌}
use azldev.Text.{Text, ◌==◌}
use azldev.Text.Order.{contains, all-same_members}
use azldev.ProjectConfig.Overlay.{ComponentOverlay, modifies_archive, targets_loose_file}
use azldev.ProjectConfig.Sources.{
  SourceFileReference, is_overlay_origin, modified_archives, overlay_origins, reject_loose_overlays,
  check_archives, validate_archive_overlays,
}

-- Some overlay modifies the archive.
abbrev pub is_modified : List ComponentOverlay → Text → Bool
is_modified overlays name = any (λ o. modifies_archive o && o.archive == name) overlays

-- Some source file of this name has an overlay origin.
abbrev pub has_overlay_origin : List SourceFileReference → Text → Bool
has_overlay_origin files name =
    any (λ f. is_overlay_origin f.origin.origin_type && f.filename == name) files

abbrev pub is_false : Result Bool → Bool
is_false (ok matches) = not matches
is_false (err e) = false

contains-modified_archives :
    (overlays : List ComponentOverlay) (name : Text)
    → contains (modified_archives overlays) name ≡ is_modified overlays name
unfolding contains modified_archives
contains-modified_archives [] name = refl
contains-modified_archives (o ∷ overlays) name =
    ground (arith, contains-modified_archives overlays name)

is_ok-overlay_origins :
    (modified : List Text) (files : List SourceFileReference)
    → is_ok (overlay_origins modified files)
      ≡ all
          (λ f. not (is_overlay_origin f.origin.origin_type) || contains modified f.filename)
          files
unfolding overlay_origins
is_ok-overlay_origins modified [] = refl
is_ok-overlay_origins modified (f ∷ files) = ground (arith, is_ok-overlay_origins modified files)

contains-overlay_origins :
    (modified : List Text) (files : List SourceFileReference) (origins : List Text) (name : Text)
    → overlay_origins modified files ≡ ok origins
    → contains origins name ≡ has_overlay_origin files name
unfolding overlay_origins contains
contains-overlay_origins modified [] origins name h = ground arith
contains-overlay_origins modified (f ∷ files) origins name h =
    elim (Result-cases (overlay_origins modified files)) [
      | inl (rest, e) ↦ ground (arith, contains-overlay_origins modified files rest name e)
      | inr (_, e) ↦ absurd (ground arith)
    ]

all-modified_archives :
    (p : Text → Bool) (overlays : List ComponentOverlay)
    → all p (modified_archives overlays)
      ≡ all (λ o. not (modifies_archive o) || p o.archive) overlays
unfolding modified_archives
all-modified_archives p [] = refl
all-modified_archives p (o ∷ overlays) = ground (arith, all-modified_archives p overlays)

all-same_tests {ℓ} :
    {A : Type ℓ} (p q : A → Bool) (xs : List A) → ((x : A) → p x ≡ q x) → all p xs ≡ all q xs
all-same_tests p q [] same = refl
all-same_tests p q (x ∷ xs) same = ground (arith, same x, all-same_tests p q xs same)

module _ (path_match : Text → Text → Result Bool) (range : List Text → List Text) where
  -- No loose-file overlay targets the archive.
  abbrev pub is_untargeted : List ComponentOverlay → Text → Bool
  is_untargeted overlays name = all (λ o. is_false (targets_loose_file path_match o name)) overlays

  is_ok-reject_loose_overlays :
      (name : Text) (overlays : List ComponentOverlay)
      → is_ok (reject_loose_overlays path_match range name overlays) ≡ is_untargeted overlays name
  unfolding reject_loose_overlays
  is_ok-reject_loose_overlays name [] = refl
  is_ok-reject_loose_overlays name (o ∷ overlays) =
      ground (arith, is_ok-reject_loose_overlays name overlays)

  is_ok-check_archives :
      (allow_missing : Bool) (origins : List Text) (overlays : List ComponentOverlay)
      (names : List Text)
      → is_ok (check_archives path_match range allow_missing origins overlays names)
        ≡ all
            (λ name. (allow_missing || contains origins name) && is_untargeted overlays name)
            names
  unfolding check_archives
  is_ok-check_archives allow_missing origins overlays [] = refl
  is_ok-check_archives allow_missing origins overlays (name ∷ names) = ground (
    arith,
    is_ok-reject_loose_overlays name overlays,
    is_ok-check_archives allow_missing origins overlays names,
  )

  module _
      (visits_keys : (names : List Text) (name : Text)
        → contains (range names) name ≡ contains names name) where
    -- For every order in which Go walks the map of archives, ValidateArchiveOverlays accepts a
    -- component exactly if each source file with an overlay origin is an archive that an overlay
    -- modifies, and each modified archive has such a source file (unless that may be missing) and is
    -- the target of no loose-file overlay, every match of a pattern with it being without an error.
    pub is_ok-validate_archive_overlays :
        (overlays : List ComponentOverlay) (files : List SourceFileReference) (allow_missing : Bool)
        → is_ok (validate_archive_overlays path_match range overlays files allow_missing) ≡ (
            all
              (λ f. not (is_overlay_origin f.origin.origin_type) || is_modified overlays f.filename)
              files
            && all
                (λ o.
                  not (modifies_archive o)
                  || (allow_missing || has_overlay_origin files o.archive)
                    && is_untargeted overlays o.archive)
                overlays)
    unfolding validate_archive_overlays
    is_ok-validate_archive_overlays overlays files allow_missing =
        elim (Result-cases (overlay_origins (modified_archives overlays) files)) [
          | inl (origins, e) ↦ ground (
            arith,
            of_files,
            is_ok-check_archives allow_missing origins overlays
                (range (modified_archives overlays)),
            of_archives origins e,
          )
          | inr (_, e) ↦ ground (arith, of_files)
        ]
      where
        of_files :
            is_ok (overlay_origins (modified_archives overlays) files)
            ≡ all
                (λ f.
                  not (is_overlay_origin f.origin.origin_type) || is_modified overlays f.filename)
                files
        of_files =
            is_ok-overlay_origins (modified_archives overlays) files
            ∙ all-same_tests _ _ files (λ f.
              ap (λ b. not (is_overlay_origin f.origin.origin_type) || b)
                (contains-modified_archives overlays f.filename))

        of_archives :
            (origins : List Text)
            → overlay_origins (modified_archives overlays) files ≡ ok origins
            → all
                (λ name. (allow_missing || contains origins name) && is_untargeted overlays name)
                (range (modified_archives overlays))
              ≡ all
                  (λ o.
                    not (modifies_archive o)
                    || (allow_missing || has_overlay_origin files o.archive)
                      && is_untargeted overlays o.archive)
                  overlays
        of_archives origins e =
            all-same_members _ _ _ (visits_keys (modified_archives overlays))
            ∙ (all-same_tests _ _ (modified_archives overlays) (λ name.
                  ap (λ b. (allow_missing || b) && is_untargeted overlays name)
                    (contains-overlay_origins (modified_archives overlays) files origins name e))
                ∙ all-modified_archives _ overlays)
