-- ===== src/Spec/Balance/Remove.antt =====
-- internal/rpm/spec/edit.go: the removal of whole sections.
use azldev.Prelude.{ℕ, List, [], ◌∷◌, ◌++◌, Bool, ◌&&◌, Option, some, none}
use azldev.Prelude.{Error, new, wrap, if◌then◌else◌, length, Result, ok, err, ◌>>=◌, context}
use azldev.Text.{Text, ◌==◌}
use azldev.Spec.Lines.{}
use azldev.Spec.Tree.Pairs.{ConditionalPair}
use azldev.Spec.Visit.{
  Target, section_line, spec_start, section_start, section_end, spec_end, Visitor, returned,
  out_of_fuel, visit, remove_lines,
}
use azldev.Spec.Edit.{Edited, edited, unfinished, visit_fuel, section_not_found}
use azldev.Spec.Balance.{SectionRange, collect_conditional_pairs, balance_range}

-- The variables of the visitor of collectSectionRanges; curStart is -1 without a start.
abbrev pub RangeScan : Type 0
RangeScan = List SectionRange × Option ℕ

-- What the visitor of collectSectionRanges does in a section that matches.
unfoldable pub scan_range : Target → ℕ → RangeScan → RangeScan
scan_range section_start line (ranges, cur_start) = (ranges, some line)
scan_range section_end line (ranges, none) = (ranges, none)
scan_range section_end line (ranges, some start) =
    (ranges ++ (record { start = start; end = line } ∷ []), none)
scan_range spec_start line scan = scan
scan_range spec_end line scan = scan
scan_range (section_line text parsed) line scan = scan

-- The visitor of collectSectionRanges.
unfoldable pub range_visitor : (Text → Text → Bool) → Visitor RangeScan
range_visitor matches ctx scan = (
  none,
  ctx,
  (if matches ctx.current_section.sect_name ctx.current_section.package_name
      then scan_range ctx.target ctx.current_line_num scan
      else scan),
)

abbrev pub close_last : List Text → RangeScan → List SectionRange
close_last raw (ranges, none) = ranges
close_last raw (ranges, some start) = ranges ++ (record { start = start; end = length raw } ∷ [])

unfoldable pub balance_all :
    List Text → List ConditionalPair → List SectionRange → Result (List SectionRange)
balance_all raw pairs [] = ok []
balance_all raw pairs (range ∷ ranges) = do
  range' ← balance_range range raw pairs
  ranges' ← balance_all raw pairs ranges
  ok (range' ∷ ranges')

-- The end of collectSectionRanges, for the ranges that were found.
unfoldable pub balance_found : List Text → List SectionRange → Result (List SectionRange)
balance_found raw [] = ok []
balance_found raw (range ∷ ranges) = do
  pairs ← context "failed to parse conditional structure:\n%w" (collect_conditional_pairs raw)
  balance_all raw pairs (range ∷ ranges)

-- collectSectionRanges, whose visitor has no error; `none` is no result within the fuel.
unfoldable pub collect_section_ranges :
    (Text → Text → Bool) → List Text → Option (Result (List SectionRange))
collect_section_ranges matches raw =
    elim (visit (range_visitor matches) (visit_fuel (length raw) 0) raw ([], none)) [
      | out_of_fuel ↦ none
      | returned failed ctx scan ↦ some (balance_found raw (close_last raw scan))
    ]

-- removeRanges: from the last range to the first
unfoldable pub remove_ranges : List SectionRange → List Text → List Text
remove_ranges [] lines = lines
remove_ranges (range ∷ ranges) lines =
    remove_lines (remove_ranges ranges lines) range.start range.end

-- The two ends of RemoveSection and RemoveSubpackage.
unfoldable pub remove_found :
    Option (Result (List SectionRange)) → Error → (Error → Error) → List Text → Edited
remove_found none not_found failed spec = unfinished
remove_found (some (err e)) not_found failed spec = edited (some (failed e)) spec
remove_found (some (ok [])) not_found failed spec = edited (some not_found) spec
remove_found (some (ok (range ∷ ranges))) not_found failed spec =
    edited none (remove_ranges (range ∷ ranges) spec)

-- RemoveSection
unfoldable pub remove_section : Text → Text → List Text → Edited
remove_section section_name package_name spec =
    if section_name == []
    then edited (some (new "cannot remove the global/preamble section")) spec
    else remove_found
        (collect_section_ranges (λ name pkg. name == section_name && pkg == package_name) spec)
        (wrap "section %#q (package=%#q) not found:\n%w" section_not_found)
        (wrap "failed to scan spec for section %#q (package=%#q):\n%w") spec

-- RemoveSubpackage
unfoldable pub remove_subpackage : Text → List Text → Edited
remove_subpackage package_name spec =
    if package_name == []
    then edited (some (new "cannot remove sub-package with empty name")) spec
    else remove_found (collect_section_ranges (λ name pkg. pkg == package_name) spec)
        (wrap "sub-package %#q not found:\n%w" section_not_found)
        (wrap "failed to scan spec for sub-package %#q:\n%w") spec
