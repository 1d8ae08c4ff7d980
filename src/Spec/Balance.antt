-- ===== src/Spec/Balance.antt =====
-- internal/rpm/spec/edit.go: the ranges of lines whose removal keeps the conditionals balanced. Here the bodies of macro definitions are read as any other lines.
pub mod Remove
pub mod Straddle
pub mod Depth
pub mod Segments
pub mod Removal
pub mod Removed
pub mod Scan
pub mod Sections
use azldev.Prelude.{
  ℕ, zero, suc, ◌+◌, ◌-◌, List, [], ◌∷◌, ◌++◌, Bool, true, false, ◌&&◌, ◌||◌, not, Option, some,
  none,
}
use azldev.Prelude.{
  Error, new, wrap, if◌then◌else◌, length, ltb, leb, Result, ok, err, ◌>>=◌, ◌>>◌, context,
  reject_if,
}
use azldev.Text.{Text, ◌==◌, codes, trim_space, has_prefix}
use azldev.Spec.Lines.{
  DepthChange, opens, closes, same, conditional_depth_change, is_conditional_branch_directive,
}
use azldev.Spec.Tree.Build.{line_at}
use azldev.Spec.Tree.Pairs.{ConditionalPair}
use azldev.Spec.Visit.{
  Target, section_line, spec_start, section_start, section_end, spec_end, Context, Visitor, Visited,
  returned, out_of_fuel, visit, remove_lines,
}
use azldev.Spec.Edit.{Edited, edited, unfinished, visit_fuel, section_not_found}

abbrev pub conditional_spans_sections : Error
conditional_spans_sections = new "conditional block spans across section boundaries"

-- sectionLineRange
pub record SectionRange : Type 0 where
  pub start : ℕ
  pub end : ℕ

-- isBlankOrComment
unfoldable pub is_blank_or_comment : Text → Bool
is_blank_or_comment line =
    let trimmed = trim_space line in trimmed == [] || has_prefix trimmed (codes "#")

abbrev is_same : DepthChange → Bool
is_same same = true
is_same opens = false
is_same closes = false

-- What validateNoContentAfter looks for.
unfoldable pub is_content : Text → Bool
is_content line = not (is_blank_or_comment line) && is_same (conditional_depth_change line)

-- The loop of validateNoContentAfter, over the rounds that are left.
unfoldable pub has_content_from : List Text → ℕ → ℕ → Bool
has_content_from raw zero line = false
has_content_from raw (suc rounds) line =
    is_content (line_at raw line) || has_content_from raw rounds (suc line)

-- validateNoContentAfter(first-1, end): whether there is content in [first, end)
unfoldable pub has_content : List Text → ℕ → ℕ → Bool
has_content raw first end = has_content_from raw (end - first) first

-- The loop of collectConditionalPairs, with its stack of %if lines.
unfoldable pub collect_from :
    List Text → ℕ → List ℕ → List ConditionalPair → Result (List ConditionalPair)
collect_from [] line [] pairs = ok pairs
collect_from [] line (if_line ∷ stack) pairs = err (new "unmatched %%if at line %d")
collect_from (text ∷ texts) line stack pairs = elim (conditional_depth_change text) [
  | opens ↦ collect_from texts (suc line) (line ∷ stack) pairs
  | same ↦ collect_from texts (suc line) stack pairs
  | closes ↦ elim stack [
    | [] ↦ err (new "unmatched %%endif at line %d")
    | if_line ∷ rest ↦
        collect_from texts (suc line) rest
          (pairs ++ (record { if_line = if_line; endif_line = line } ∷ []))
  ]
]

-- collectConditionalPairs
unfoldable pub collect_conditional_pairs : List Text → Result (List ConditionalPair)
collect_conditional_pairs raw = collect_from raw 0 [] []

abbrev pub inside : SectionRange → ℕ → Bool
inside range line = leb range.start line && ltb line range.end

-- The loop of balanceRange: the smallest line of the range that belongs to a straddling pair.
unfoldable pub trim_loop : SectionRange → List Text → List ConditionalPair → ℕ → Result ℕ
trim_loop range raw [] trimmed = ok trimmed
trim_loop range raw (pair ∷ pairs) trimmed =
    let if_inside = inside range pair.if_line in
    let endif_inside = inside range pair.endif_line in
    let unchanged = trim_loop range raw pairs trimmed in
    let at_if =
      trim_loop range raw pairs (if ltb pair.if_line trimmed then pair.if_line else trimmed) in
    let at_endif =
      trim_loop range raw pairs
        (if ltb pair.endif_line trimmed then pair.endif_line else trimmed) in
    if if_inside
    then (if endif_inside
        then unchanged
        else if has_content raw (suc pair.if_line) range.end
        then err (
            wrap
              "section at lines %d-%d has a conditional block that spans into the next section; use a spec-search-replace overlay to adjust conditionals before removing:\n%w"
              conditional_spans_sections)
        else at_if)
    else if endif_inside
    then at_endif
    else unchanged

-- The first pair around a line, in the order of the pairs.
unfoldable pub enclosing_pair : List ConditionalPair → ℕ → Option ConditionalPair
enclosing_pair [] line = none
enclosing_pair (pair ∷ pairs) line =
    if leb pair.if_line line && leb line pair.endif_line
    then some pair
    else enclosing_pair pairs line

abbrev leaves_range : SectionRange → Option ConditionalPair → Bool
leaves_range range none = false
leaves_range range (some pair) = not (leb range.start pair.if_line && ltb pair.endif_line range.end)

-- The loop of validateNoBranchDirectivesInExternalConditional.
unfoldable pub has_external_branch : SectionRange → List Text → List ConditionalPair → ℕ → ℕ → Bool
has_external_branch range raw pairs zero line = false
has_external_branch range raw pairs (suc rounds) line =
    is_conditional_branch_directive (line_at raw line)
      && leaves_range range (enclosing_pair pairs line)
    || has_external_branch range raw pairs rounds (suc line)

-- validateNoBranchDirectivesInExternalConditional
unfoldable pub validate_no_branch_directives :
    SectionRange → List Text → List ConditionalPair → Result (Unit {0})
validate_no_branch_directives range raw pairs =
    if has_external_branch range raw pairs (range.end - range.start) range.start
    then err (
        wrap
          "section at lines %d-%d contains a %%else/%%elif branch directive inside a conditional block that extends beyond the section boundary; use a spec-search-replace overlay to adjust conditionals before removing:\n%w"
          conditional_spans_sections)
    else ok tt

-- The end of balanceRange: no content may stay behind.
unfoldable pub trimmed_range : SectionRange → List Text → ℕ → Result SectionRange
trimmed_range range raw trimmed =
    if ltb trimmed range.end && has_content raw trimmed range.end
    then err (
        wrap
          "section at lines %d-%d has a conditional block that spans into the next section; use a spec-search-replace overlay to adjust conditionals before removing:\n%w"
          conditional_spans_sections)
    else ok (record { start = range.start; end = trimmed })

-- balanceRange
unfoldable pub balance_range : SectionRange → List Text → List ConditionalPair → Result SectionRange
balance_range range raw pairs = do
  trimmed ← trim_loop range raw pairs range.end
  validate_no_branch_directives range raw pairs
  trimmed_range range raw trimmed
