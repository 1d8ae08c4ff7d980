-- ===== src/Spec/Edit/Insertion.antt =====
-- internal/rpm/spec/edit.go: InsertTag, which finds the place of a new tag among the others.
use azldev.Spec.Parsed.{ParsedLine}
use azldev.Spec.Visit.{Target}
use azldev.Prelude.{ℕ, zero, suc, ◌-◌, List, [], ◌∷◌, Bool, true, false, ◌&&◌, Option, some, none}
use azldev.Prelude.{
  wrap, if◌then◌else◌, length, leb, ◌=?◌, ℤ, pos, negsuc, Result, ok, err, reverse,
}
use azldev.Text.{Text, ◌==◌, codes, to_lower}
use azldev.Spec.Lines.{DepthChange, opens, closes, same, conditional_depth_change}
use azldev.Spec.Parsed.{section_start_line, tag_line, raw_line}
use azldev.Spec.Tree.Build.{line_at, deeper, shallower}
use azldev.Spec.Visit.{
  spec_start, section_start, section_end, spec_end, section_line, Visitor, returned, out_of_fuel,
  visit, insert_lines_at,
}
use azldev.Spec.Edit.{Edited, edited, unfinished, visit_fuel, section_not_found, in_section}
use azldev.Spec.Edit.Tags.{add_tag, tag_text}

drop_digits : Text → Text
drop_digits [] = []
drop_digits (c ∷ s) = let rest = drop_digits s in if leb b'0' c && leb c b'9' then rest else c ∷ s

-- tagFamily
unfoldable pub tag_family : Text → Text
unfolding drop_digits
tag_family tag =
    let family = reverse (drop_digits (reverse (to_lower tag))) in
    if family == [] then to_lower tag else family

-- insertTagScanResult; a line number of -1 is `none`.
pub record TagScan : Type 0 where
  pub last_family_tag : Option ℕ
  pub last_any_tag : Option ℕ
  pub section_end_line : ℕ
  pub section_found : Bool

unfoldable pub scan_tag : Text → Text → ℕ → TagScan → TagScan
scan_tag family tag line_num scan = record scan {
  last_any_tag = some line_num;
  last_family_tag = if tag_family tag == family then some line_num else scan.last_family_tag;
}

unfoldable pub scan_line_of : Text → ParsedLine → ℕ → TagScan → TagScan
scan_line_of family (tag_line tag value) line_num scan = scan_tag family tag line_num scan
scan_line_of family (section_start_line kind name tokens) line_num scan = scan
scan_line_of family (raw_line content) line_num scan = scan

-- What the visitor of findInsertTagPosition does in the section.
unfoldable pub scan_target : Text → Target → ℕ → TagScan → TagScan
scan_target family section_start line_num scan = record scan { section_found = true }
scan_target family section_end line_num scan = record scan { section_end_line = line_num }
scan_target family (section_line text parsed) line_num scan =
    scan_line_of family parsed line_num scan
scan_target family spec_start line_num scan = scan
scan_target family spec_end line_num scan = scan

-- The visitor of findInsertTagPosition.
unfoldable pub insert_tag_visitor : Text → Text → Text → Visitor TagScan
insert_tag_visitor section_name package_name family ctx scan = (
  none,
  ctx,
  (if in_section section_name package_name ctx.current_section
      then scan_target family ctx.target ctx.current_line_num scan
      else scan),
)

-- findInsertTagPosition; `none` is no result within the fuel.
unfoldable pub find_insert_tag_position : Text → Text → Text → List Text → Option (Result TagScan)
find_insert_tag_position section_name package_name family spec =
    elim (visit (insert_tag_visitor section_name package_name family) (visit_fuel (length spec) 0)
      spec
      (record {
        last_family_tag = none;
        last_any_tag = none;
        section_end_line = length spec;
        section_found = false;
      })) [
        | out_of_fuel ↦ none
        | returned (some e) ctx scan ↦
            some (err (wrap "failed to scan spec for tag insertion point:\n%w" e))
        | returned none ctx scan ↦ some (
            if scan.section_found
            then ok scan
            else err (wrap "section %#q (package=%#q) not found:\n%w" section_not_found))
      ]

abbrev step_depth : DepthChange → ℤ → ℤ
step_depth opens depth = deeper depth
step_depth closes depth = shallower depth
step_depth same depth = depth

-- The depth after the first lines.
unfoldable pub depth_of : List Text → ℕ → ℤ → ℤ
depth_of lines zero depth = depth
depth_of [] (suc rounds) depth = depth
depth_of (line ∷ lines) (suc rounds) depth =
    depth_of lines rounds (step_depth (conditional_depth_change line) depth)

abbrev is_outside : ℤ → Bool
is_outside (pos n) = n =? 0
is_outside (negsuc n) = true

-- The forward scan: the line that brings the depth back, over the rounds that are left.
unfoldable pub find_close : List Text → ℕ → ℕ → ℤ → Option ℕ
find_close lines zero i depth = none
find_close lines (suc rounds) i depth =
    let depth' = step_depth (conditional_depth_change (line_at lines i)) depth in
    elim (is_outside depth') [ true ↦ some i | false ↦ find_close lines rounds (suc i) depth' ]

abbrev or_else : Option ℕ → ℕ → ℕ
or_else none n = n
or_else (some m) n = m

abbrev min_of : ℕ → ℕ → ℕ
min_of a b = if leb a b then a else b

-- skipPastConditional
unfoldable pub skip_past_conditional : List Text → ℕ → ℕ → ℕ
skip_past_conditional lines line_num section_end_line =
    let depth = depth_of lines (suc line_num) (pos 0) in
    if is_outside depth
    then line_num
    else or_else
        (find_close lines (min_of section_end_line (length lines) - suc line_num) (suc line_num)
          depth)
        line_num

abbrev pub first_of : Option ℕ → Option ℕ → Option ℕ
first_of (some n) other = some n
first_of none other = other

-- The place after the last tag, if there is one.
unfoldable pub insert_after : Text → Text → Text → List Text → TagScan → Option ℕ → Edited
insert_after package_name tag value spec scan none = add_tag package_name tag value spec
insert_after package_name tag value spec scan (some line) = edited none (
    insert_lines_at spec (tag_text tag value ∷ [])
      (suc (skip_past_conditional spec line scan.section_end_line)))

-- InsertTag, after its scan.
unfoldable pub insert_scanned : Text → Text → Text → List Text → Option (Result TagScan) → Edited
insert_scanned package_name tag value spec none = unfinished
insert_scanned package_name tag value spec (some (err e)) = edited (some e) spec
insert_scanned package_name tag value spec (some (ok scan)) =
    insert_after package_name tag value spec scan (first_of scan.last_family_tag scan.last_any_tag)

-- InsertTag
unfoldable pub insert_tag : Text → Text → Text → List Text → Edited
insert_tag package_name tag value spec = insert_scanned package_name tag value spec (
    find_insert_tag_position (if package_name == [] then [] else codes "%package") package_name
      (tag_family tag) spec)
