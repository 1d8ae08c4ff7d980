-- ===== src/Spec/Edit/PatchesNumbered.antt =====
-- internal/rpm/spec/edit.go: AddPatchEntry and the number of the patch that it adds.
use azldev.Prelude.{List, [], ◌∷◌, ◌++◌, Bool, true, false, none, ℤ, ◌≡◌}
use azldev.Prelude.{◌≢◌, ◌-◌, ◌^◌, pos}
use azldev.Text.{Text, codes}
use azldev.Spec.Visit.Walk.{keep, Walked, walk}
use azldev.Spec.Edit.Patches.{parse_patch_tag_number, scan_patch}
use azldev.Spec.Edit.Actions.{LineAction, at_tags}
use azldev.Spec.Edit.PatchNumbers.{IsHighest, successor}
use azldev.Spec.Edit.{append_lines_to_section}
use azldev.Spec.Edit.Tags.{add_tag}
use azldev.Spec.Edit.Patches.{PatchScan, add_patch_entry}

-- The last variables of a pass.
abbrev last_of : {S : Type 0} → Walked S → S
last_of (failed, lines, s) = s

abbrev collect_action : LineAction (List Text)
collect_action = at_tags (λ section tag value tags. keep (tag ∷ tags))

-- The names of the tags of a spec, the last one first.
abbrev pub tags_of : List Text → List Text
tags_of spec = last_of (walk collect_action spec [])

module _ (equal_fold : Text → Text → Bool)
    (folds : (tag : Text)
      → equal_fold tag (codes "patch") ≡ true
      → parse_patch_tag_number tag ≡ none) where
  abbrev scan_action : LineAction PatchScan
  scan_action = at_tags (λ section tag value scan. keep (scan_patch equal_fold tag scan))

  module _ (decimal : ℤ → Text) (package_name filename : Text) (spec : List Text) where
    -- What AddPatchEntry adds: an entry of the %patchlist, if there is one, or else a tag with the
    -- number after the highest one.
    abbrev pub Adds : Bool → Type 0
    Adds true =
        add_patch_entry equal_fold decimal package_name filename spec
        ≡ append_lines_to_section (codes "%patchlist") [] (filename ∷ []) spec
    Adds false =
        (highest number : ℤ) × IsHighest equal_fold folds (tags_of spec) highest
        × (highest ≢ pos (2 ^ 63 - 1) → number ≡ successor highest)
        × (add_patch_entry equal_fold decimal package_name filename spec
            ≡ add_tag package_name (codes "Patch" ++ decimal number) filename spec)
