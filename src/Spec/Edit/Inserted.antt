-- ===== src/Spec/Edit/Inserted.antt =====
-- internal/rpm/spec/edit.go: InsertTag on a whole spec.
use azldev.Prelude.{
  ℕ, suc, List, [], ◌∷◌, false, Option, some, none, ◌≡◌, refl, arith, wrap, Result, ok, err,
}
use azldev.Prelude.{inl, inr, length, subst, sym, ap, if◌then◌else◌}
use azldev.Text.{Text, ◌==◌, codes}
use azldev.Spec.Visit.{Context, Visited, returned, out_of_fuel, insert_lines_at}
use azldev.Spec.Visit.Readers.{visit-Read}
use azldev.Spec.Edit.{Edited, visit_fuel, in_section, section_not_found}
use azldev.Spec.Edit.Tags.{add_tag, tag_text}
use azldev.Spec.Edit.Insertion.{
  TagScan, scan_target, insert_tag_visitor, find_insert_tag_position, skip_past_conditional,
  first_of, insert_after, insert_scanned, insert_tag, tag_family,
}
use azldev.Spec.Edit.Calls.{length-insert_lines_at}
use azldev.Spec.Edit.Outcomes.Subsequence.{
  Subsequence-refl, Subsequence-insert, Subsequence-inserted,
}
use azldev.Spec.Edit.Appended.{Outcome, Appended, append_lines_to_section-Outcome}

module _ (section_name package_name family : Text) where
  abbrev scan_at : Context → TagScan → TagScan
  scan_at ctx scan =
      if in_section section_name package_name ctx.current_section
      then scan_target family ctx.target ctx.current_line_num scan
      else scan

  insert_tag_visitor-reads :
      (ctx : Context) (scan : TagScan)
      → insert_tag_visitor section_name package_name family ctx scan ≡ (none, ctx, scan_at ctx scan)
  unfolding insert_tag_visitor
  insert_tag_visitor-reads ctx scan = refl

  abbrev position_of : Visited TagScan → Option (Result TagScan)
  position_of out = elim out [
    | out_of_fuel ↦ none
    | returned (some e) ctx scan ↦
        some (err (wrap "failed to scan spec for tag insertion point:\n%w" e))
    | returned none ctx scan ↦ some (
        if scan.section_found
        then ok scan
        else err (wrap "section %#q (package=%#q) not found:\n%w" section_not_found))
  ]

  -- The scan ends for every spec.
  find_insert_tag_position-some :
      (spec : List Text)
      → (position : Result TagScan) × (find_insert_tag_position section_name package_name family
            spec
          ≡ some position)
  unfolding find_insert_tag_position visit_fuel
  find_insert_tag_position-some spec =
      let (ctx, scan, e, _, _) =
        visit-Read (insert_tag_visitor section_name package_name family) scan_at
          insert_tag_visitor-reads (λ n s. Unit) (λ ctx s h. tt) (λ n s h. tt)
          (visit_fuel (length spec) 0) spec
          (record {
            last_family_tag = none;
            last_any_tag = none;
            section_end_line = length spec;
            section_found = false;
          })
          tt (omega arith) in
      (_, ap position_of e)

module _ (package_name tag value : Text) (spec : List Text) where
  abbrev pub WithTag : Edited → Type 0
  WithTag = Outcome (Appended spec (tag_text tag value ∷ [])) spec

  insert_after-WithTag :
      (scan : TagScan) (line : Option ℕ)
      → WithTag (insert_after package_name tag value spec scan line)
  unfolding insert_after add_tag
  insert_after-WithTag scan none =
      append_lines_to_section-Outcome (if package_name == [] then [] else codes "%package")
        package_name (tag_text tag value ∷ []) spec
  insert_after-WithTag scan (some line) =
      let place = suc (skip_past_conditional spec line scan.section_end_line) in
      inr (
        insert_lines_at spec (tag_text tag value ∷ []) place,
        refl,
        (
          Subsequence-insert spec spec (tag_text tag value ∷ []) place (Subsequence-refl spec),
          Subsequence-inserted spec (tag_text tag value ∷ []) place,
          0,
          omega (arith, length-insert_lines_at spec (tag_text tag value ∷ []) place),
        ),
      )

  insert_scanned-WithTag :
      (position : Result TagScan)
      → WithTag (insert_scanned package_name tag value spec (some position))
  unfolding insert_scanned
  insert_scanned-WithTag (err e) = inl (e, refl)
  insert_scanned-WithTag (ok scan) =
      insert_after-WithTag scan (first_of scan.last_family_tag scan.last_any_tag)

  -- InsertTag ends for every spec: with an error and the spec as it was, or without one, and then all
  -- lines of the spec are kept in their order, and the text of the tag is among the lines.
  pub insert_tag-Outcome : WithTag (insert_tag package_name tag value spec)
  unfolding insert_tag
  insert_tag-Outcome =
      let (position, e) =
        find_insert_tag_position-some (if package_name == [] then [] else codes "%package")
          package_name (tag_family tag) spec in
      subst (λ out. WithTag (insert_scanned package_name tag value spec out)) (sym e)
        (insert_scanned-WithTag position)
