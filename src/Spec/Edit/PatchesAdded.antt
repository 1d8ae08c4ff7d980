-- ===== src/Spec/Edit/PatchesAdded.antt =====
-- internal/rpm/spec/edit.go: AddPatchEntry on a whole spec, in its visits.
use azldev.Prelude.{
  List, [], ◌∷◌, ◌++◌, Bool, true, false, Option, some, none, ℤ, ◌≡◌, refl, arith, inl, inr, ◌⊎◌,
  subst, sym, ap, length, if◌then◌else◌, negsuc, Error,
}
use azldev.Text.{Text, ◌==◌, codes}
use azldev.Spec.Edit.PatchNumbers.{}
use azldev.Spec.Parsed.{ParsedLine, section_start_line, tag_line, raw_line}
use azldev.Spec.Visit.{
  Target, spec_start, section_start, section_end, spec_end, section_line, Context, Visited,
  returned, out_of_fuel,
}
use azldev.Spec.Visit.Moves.{variables_of}
use azldev.Spec.Visit.Readers.{visit-Read}
use azldev.Spec.Edit.{Edited, unfinished, visit_fuel, at_section_line, append_lines_to_section}
use azldev.Spec.Edit.Tags.{at_tag, visit_tags, add_tag, tag_text}
use azldev.Spec.Edit.Patches.{
  PatchScan, highest_visitor, highest_of, get_highest_patch_tag_number, next_patch, add_patch_entry,
}
use azldev.Spec.Edit.Appended.{Outcome, Appended, append_lines_to_section-Outcome}
use azldev.Spec.Edit.PatchesRemoved.{has_section-some}

module _ (equal_fold : Text → Text → Bool) where
  at_tag-reads :
      (text : Text) (parsed : ParsedLine) (ctx : Context) (scan : PatchScan)
      → at_tag (highest_visitor equal_fold) text parsed ctx scan
        ≡ (none, ctx, variables_of (at_tag (highest_visitor equal_fold) text parsed ctx scan))
  unfolding at_tag highest_visitor
  at_tag-reads text (tag_line tag value) ctx scan = refl
  at_tag-reads text (section_start_line kind name tokens) ctx scan = refl
  at_tag-reads text (raw_line content) ctx scan = refl

  abbrev scanned : Target → Context → PatchScan → Option Error × Context × PatchScan
  scanned target ctx scan = at_section_line target (at_tag (highest_visitor equal_fold)) ctx scan

  scanned-reads :
      (target : Target) (ctx : Context) (scan : PatchScan)
      → scanned target ctx scan ≡ (none, ctx, variables_of (scanned target ctx scan))
  unfolding at_section_line
  scanned-reads (section_line text parsed) ctx scan = at_tag-reads text parsed ctx scan
  scanned-reads section_start ctx scan = refl
  scanned-reads section_end ctx scan = refl
  scanned-reads spec_start ctx scan = refl
  scanned-reads spec_end ctx scan = refl

  abbrev pub number_of : Visited PatchScan → Option ℤ
  number_of out = elim out [
    | out_of_fuel ↦ none
    | returned failed ctx scan ↦ some (highest_of equal_fold scan)
  ]

  -- GetHighestPatchTagNumber ends for every spec.
  get_highest_patch_tag_number-some :
      (spec : List Text)
      → (highest : ℤ) × (get_highest_patch_tag_number equal_fold spec ≡ some highest)
  unfolding get_highest_patch_tag_number visit_tags visit_fuel
  get_highest_patch_tag_number-some spec =
      let (ctx, scan, e, _, _) =
        visit-Read (visit_tags (highest_visitor equal_fold))
          (λ ctx scan. variables_of (scanned ctx.target ctx scan))
          (λ ctx scan. scanned-reads ctx.target ctx scan) (λ n s. Unit) (λ ctx s h. tt)
          (λ n s h. tt) (visit_fuel (length spec) 0) spec (negsuc 0, 0) tt (omega arith) in
      (_, ap number_of e)

  module _ (decimal : ℤ → Text) (package_name filename : Text) (spec : List Text) where
    -- A line with the patch: its name alone, or a tag with some number.
    abbrev pub PatchLine : Text → Type 0
    PatchLine line =
        (line ≡ filename)
        ⊎ ((number : ℤ) × (line ≡ tag_text (codes "Patch" ++ decimal number) filename))

    abbrev pub WithPatch : Edited → Type 0
    WithPatch =
        Outcome (λ spec'. (line : Text) × PatchLine line × Appended spec (line ∷ []) spec') spec

    appended-WithPatch :
        (section_name package_name line : Text)
        → PatchLine line
        → WithPatch (append_lines_to_section section_name package_name (line ∷ []) spec)
    appended-WithPatch section_name package_name line kind =
        elim (append_lines_to_section-Outcome section_name package_name (line ∷ []) spec) [
          | inl failed ↦ inl failed
          | inr (spec', e, appended) ↦ inr (spec', e, (line, kind, appended))
        ]

    abbrev pub numbered : Option ℤ → Edited
    numbered number = elim number [
      | none ↦ unfinished
      | some highest ↦
          add_tag package_name (codes "Patch" ++ decimal (next_patch equal_fold highest)) filename
            spec
    ]

    abbrev pub by_patchlist : Option Bool → Edited
    by_patchlist found = elim found [
      | none ↦ unfinished
      | some true ↦ append_lines_to_section (codes "%patchlist") [] (filename ∷ []) spec
      | some false ↦ numbered (get_highest_patch_tag_number equal_fold spec)
    ]

    by_patchlist-WithPatch : (found : Bool) → WithPatch (by_patchlist (some found))
    unfolding add_tag
    by_patchlist-WithPatch true = appended-WithPatch (codes "%patchlist") [] filename (inl refl)
    by_patchlist-WithPatch false =
        let (highest, e) = get_highest_patch_tag_number-some spec in
        subst (λ number. WithPatch (numbered number)) (sym e)
          (appended-WithPatch (if package_name == [] then [] else codes "%package") package_name
            (tag_text (codes "Patch" ++ decimal (next_patch equal_fold highest)) filename)
            (inr (next_patch equal_fold highest, refl)))

    -- AddPatchEntry ends for every spec: with an error and the spec as it was, or without one, and then
    -- all lines of the spec are kept in their order, and the file name of the patch stands among the
    -- lines, alone or as the value of a numbered patch tag.
    pub add_patch_entry-Outcome :
        WithPatch (add_patch_entry equal_fold decimal package_name filename spec)
    unfolding add_patch_entry
    add_patch_entry-Outcome =
        let (found, e) = has_section-some (codes "%patchlist") spec in
        subst (λ out. WithPatch (by_patchlist out)) (sym e) (by_patchlist-WithPatch found)
