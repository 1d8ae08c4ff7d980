-- ===== src/Spec/Edit/Tags.antt =====
-- internal/rpm/spec/edit.go: the edits of tags.
use azldev.Prelude.{ℕ, ◌+◌, List, [], ◌∷◌, ◌++◌, Bool, true, false, ◌&&◌, ◌||◌, Option, some, none}
use azldev.Prelude.{Error, wrap, if◌then◌else◌, length, ◌=?◌}
use azldev.Text.{Text, ◌==◌, codes, to_lower}
use azldev.Spec.Parsed.{ParsedLine, section_start_line, tag_line, raw_line}
use azldev.Spec.Visit.{
  Visitor, Visited, returned, out_of_fuel, visit, remove_current, replace_current,
}
use azldev.Spec.Edit.{
  Edited, edited, unfinished, visit_fuel, no_such_tag, at_section_line, if_updated,
  append_lines_to_section,
}

-- A visitor of tag lines: the tag, its value, and what a visitor has.
abbrev pub TagVisitor : Type 0 → Type 0
TagVisitor S = Text → Text → Visitor S

module _ {S : Type 0} where
  -- A visitor of the lines that are tags.
  unfoldable pub at_tag : TagVisitor S → Text → ParsedLine → Visitor S
  at_tag visitor text (tag_line tag value) ctx s = visitor tag value ctx s
  at_tag visitor text (section_start_line kind name tokens) ctx s = (none, ctx, s)
  at_tag visitor text (raw_line content) ctx s = (none, ctx, s)

  -- The visitor that VisitTags makes of one of tag lines.
  unfoldable pub visit_tags : TagVisitor S → Visitor S
  visit_tags visitor ctx = at_section_line ctx.target (at_tag visitor) ctx

  -- What VisitTagsPackage makes of a visitor of tag lines.
  unfoldable pub in_package : Text → TagVisitor S → TagVisitor S
  in_package package_name visitor tag value ctx s =
      if ctx.current_section.package_name == package_name
      then visitor tag value ctx s
      else (none, ctx, s)

  -- The same of VisitTagsPackage.
  unfoldable pub visit_tags_package : Text → TagVisitor S → Visitor S
  visit_tags_package package_name visitor = visit_tags (in_package package_name visitor)

-- fmt.Sprintf("%s: %s", tag, value)
abbrev pub tag_text : Text → Text → Text
tag_text tag value = tag ++ (codes ": " ++ value)

-- The visitor of UpdateExistingTag.
unfoldable pub update_visitor : Text → Text → TagVisitor Bool
update_visitor tag value found_tag found_value ctx updated =
    if to_lower found_tag == to_lower tag
    then (none, replace_current (tag_text tag value) ctx, true)
    else (none, ctx, updated)

-- UpdateExistingTag
unfoldable pub update_existing_tag : Text → Text → Text → List Text → Edited
update_existing_tag package_name tag value spec =
    if_updated (wrap "tag %#q not found in spec:\n%w" no_such_tag) (
      visit (visit_tags_package package_name (update_visitor tag value))
        (visit_fuel (length spec) 0) spec false)

-- AddTag
unfoldable pub add_tag : Text → Text → Text → List Text → Edited
add_tag package_name tag value spec =
    append_lines_to_section (if package_name == [] then [] else codes "%package") package_name
      (tag_text tag value ∷ []) spec

-- SetTag: the error of UpdateExistingTag is ErrNoSuchTag whenever there is one, since its visitor
-- has none.
unfoldable pub set_tag : Text → Text → Text → List Text → Edited
set_tag package_name tag value spec = elim (update_existing_tag package_name tag value spec) [
  | unfinished ↦ unfinished
  | edited none lines ↦ edited none lines
  | edited (some e) lines ↦ add_tag package_name tag value lines
]

-- How a removal of tags or entries ends: its error, the number removed, and the lines, or not within
-- the fuel.
pub data Removed : Type 0 where
  removed : Option Error → ℕ → List Text → Removed
  not_removed : Removed

unfoldable pub removed_of : Visited ℕ → Removed
removed_of out_of_fuel = not_removed
removed_of (returned failed ctx n) = removed failed n ctx.lines

-- The visitor of RemoveTagsMatching.
unfoldable pub remove_visitor : (Text → Text → Bool) → TagVisitor ℕ
remove_visitor matcher tag value ctx n =
    if matcher tag value then (none, remove_current ctx, n + 1) else (none, ctx, n)

-- RemoveTagsMatching
unfoldable pub remove_tags_matching : Text → (Text → Text → Bool) → List Text → Removed
remove_tags_matching package_name matcher spec = removed_of (
    visit (visit_tags_package package_name (remove_visitor matcher)) (visit_fuel (length spec) 0)
      spec 0)

-- The matcher of RemoveTag; `equal_fold` is strings.EqualFold.
unfoldable pub tag_matcher : (Text → Text → Bool) → Text → Text → Text → Text → Bool
tag_matcher equal_fold tag value found_tag found_value =
    to_lower found_tag == to_lower tag && (value == [] || equal_fold found_value value)

-- RemoveTag
unfoldable pub remove_tag : (Text → Text → Bool) → Text → Text → Text → List Text → Edited
remove_tag equal_fold package_name tag value spec =
    elim (remove_tags_matching package_name (tag_matcher equal_fold tag value) spec) [
      | not_removed ↦ unfinished
      | removed (some e) n lines ↦ edited (some e) lines
      | removed none n lines ↦
          edited
            (if n =? 0
              then some (wrap "tag %#q with value %#q not found in spec:\n%w" no_such_tag)
              else none)
            lines
    ]
