-- ===== src/Spec/Edit/Patches.antt =====
-- internal/rpm/spec/edit.go: the patches of a spec, as tags and in a %patchlist.
use azldev.Prelude.{
  ℕ, zero, suc, ◌+◌, ◌-◌, ◌^◌, List, [], ◌∷◌, ◌++◌, Bool, true, false, ◌&&◌, not, Option, some,
  none,
}
use azldev.Prelude.{new, wrap, if◌then◌else◌, length, ltb, ◌=?◌, ℤ, pos, negsuc, Result, ok, err}
use azldev.Text.{Text, ◌==◌, codes, to_lower, trim_space, has_prefix}
use azldev.Prelude.{drop}
use azldev.RpmVersion.{atoi}
use azldev.Spec.Parsed.{ParsedLine}
use azldev.Spec.Visit.{Visitor, returned, out_of_fuel, visit, remove_current}
use azldev.Spec.Edit.{
  Edited, edited, unfinished, visit_fuel, append_lines_to_section, has_section, at_section_line,
}
use azldev.Spec.Edit.Tags.{
  TagVisitor, visit_tags, add_tag, Removed, removed, not_removed, removed_of,
}

-- ParsePatchTagNumber; `none` is no patch number.
unfoldable pub parse_patch_tag_number : Text → Option ℤ
parse_patch_tag_number tag =
    let lower = to_lower tag in
    if has_prefix lower (codes "patch") && not (drop 5 lower == [])
    then atoi (drop 5 lower)
    else none

-- a > b
abbrev pub is_above : ℤ → ℤ → Bool
is_above (pos a) (pos b) = ltb b a
is_above (pos a) (negsuc b) = true
is_above (negsuc a) (pos b) = false
is_above (negsuc a) (negsuc b) = ltb a b

-- The variables of GetHighestPatchTagNumber: highest, and unnumberedCount.
abbrev pub PatchScan : Type 0
PatchScan = ℤ × ℕ

module _ (equal_fold : Text → Text → Bool) where
  unfoldable pub unnumbered : Text → PatchScan → PatchScan
  unnumbered tag (highest, count) =
      if equal_fold tag (codes "patch") then (highest, count + 1) else (highest, count)

  -- What a tag changes.
  unfoldable pub scan_patch : Text → PatchScan → PatchScan
  unfolding unnumbered
  scan_patch tag (highest, count) = elim (parse_patch_tag_number tag) [
    | none ↦ unnumbered tag (highest, count)
    | some n ↦ if is_above n highest then (n, count) else unnumbered tag (highest, count)
  ]

  -- The visitor of GetHighestPatchTagNumber.
  unfoldable pub highest_visitor : TagVisitor PatchScan
  highest_visitor tag value ctx scan = (none, ctx, scan_patch tag scan)

  -- Unnumbered patches take the slots from 0 on.
  unfoldable pub highest_of : PatchScan → ℤ
  highest_of (highest, count) =
      if ltb 0 count && is_above (pos (count - 1)) highest then pos (count - 1) else highest

  -- GetHighestPatchTagNumber, whose visitor has no error; `none` is no result within the fuel.
  unfoldable pub get_highest_patch_tag_number : List Text → Option ℤ
  get_highest_patch_tag_number spec =
      elim (visit (visit_tags highest_visitor) (visit_fuel (length spec) 0) spec (negsuc 0, 0)) [
        | out_of_fuel ↦ none
        | returned failed ctx scan ↦ some (highest_of scan)
      ]

  -- highest + 1, of an int of 64 bits
  unfoldable pub next_patch : ℤ → ℤ
  next_patch (pos n) = if suc n =? 2 ^ 63 then negsuc (2 ^ 63 - 1) else pos (suc n)
  next_patch (negsuc zero) = pos 0
  next_patch (negsuc (suc n)) = negsuc n

  -- AddPatchEntry; `decimal` formats an integer.
  unfoldable pub add_patch_entry : (ℤ → Text) → Text → Text → List Text → Edited
  add_patch_entry decimal package_name filename spec =
      elim (has_section (codes "%patchlist") spec) [
        | none ↦ unfinished
        | some true ↦ append_lines_to_section (codes "%patchlist") [] (filename ∷ []) spec
        | some false ↦ elim (get_highest_patch_tag_number spec) [
          | none ↦ unfinished
          | some highest ↦
              add_tag package_name (codes "Patch" ++ decimal (next_patch highest)) filename spec
        ]
      ]

-- The glob matcher doublestar.Match, on a pattern, is a parameter.
module _ (match : Text → Result Bool) where
  -- What the visitors of RemovePatchEntry do with a line that may go.
  unfoldable pub remove_if_matching : Text → Visitor ℕ
  remove_if_matching value ctx n = elim (match value) [
    | err e ↦ (some (wrap "failed to match glob pattern %#q against %#q:\n%w" e), ctx, n)
    | ok false ↦ (none, ctx, n)
    | ok true ↦ (none, remove_current ctx, n + 1)
  ]

  -- The visitor of removePatchTagsMatching.
  unfoldable pub patch_tag_visitor : TagVisitor ℕ
  patch_tag_visitor tag value ctx n = elim (parse_patch_tag_number tag) [
    | none ↦ (none, ctx, n)
    | some number ↦ remove_if_matching value ctx n
  ]

  -- removePatchTagsMatching
  unfoldable pub remove_patch_tags_matching : List Text → Removed
  remove_patch_tags_matching spec =
      removed_of (visit (visit_tags patch_tag_visitor) (visit_fuel (length spec) 0) spec 0)

  -- The visitor of removePatchlistEntriesMatching.
  unfoldable pub patchlist_line : Text → ParsedLine → Visitor ℕ
  patchlist_line text parsed ctx n =
      if ctx.current_section.sect_name == codes "%patchlist" && not (trim_space text == [])
      then remove_if_matching (trim_space text) ctx n
      else (none, ctx, n)

  unfoldable pub patchlist_visitor : Visitor ℕ
  patchlist_visitor ctx = at_section_line ctx.target patchlist_line ctx

  -- removePatchlistEntriesMatching
  unfoldable pub remove_patchlist_entries_matching : List Text → Removed
  remove_patchlist_entries_matching spec =
      removed_of (visit patchlist_visitor (visit_fuel (length spec) 0) spec 0)

  -- The end of RemovePatchEntry.
  unfoldable pub patches_removed : ℕ → List Text → Edited
  patches_removed total lines =
      edited (if total =? 0 then some (new "no patches matching %#q found in spec") else none) lines

  -- RemovePatchEntry
  unfoldable pub remove_patch_entry : List Text → Edited
  remove_patch_entry spec = elim (remove_patch_tags_matching spec) [
    | not_removed ↦ unfinished
    | removed (some e) n lines ↦
        edited (some (wrap "failed to remove matching patch tags:\n%w" e)) lines
    | removed none n lines ↦ elim (has_section (codes "%patchlist") lines) [
      | none ↦ unfinished
      | some false ↦ patches_removed n lines
      | some true ↦ elim (remove_patchlist_entries_matching lines) [
        | not_removed ↦ unfinished
        | removed (some e) m lines' ↦
            edited (some (wrap "failed to remove matching patchlist entries:\n%w" e)) lines'
        | removed none m lines' ↦ patches_removed (n + m) lines'
      ]
    ]
  ]
