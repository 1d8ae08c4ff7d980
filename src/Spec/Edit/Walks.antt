-- ===== src/Spec/Edit/Walks.antt =====
-- internal/rpm/spec/edit.go: UpdateExistingTag, SetTag, RemoveTag and SearchAndReplace as one pass over
-- the lines.
use azldev.Prelude.{ℕ, List, [], Bool, false, some, none, Error}
use azldev.Prelude.{◌≡◌, refl, arith, wrap, if◌then◌else◌, ap, ◌∙◌, length, ◌=?◌}
use azldev.Text.{Text}
use azldev.Spec.Parsed.{ParsedLine, section_start_line, tag_line, raw_line}
use azldev.Spec.Visit.{Context, Visited}
use azldev.Spec.Visit.Walk.{act_on, walk, Walked}
use azldev.Spec.Visit.Walk.Runs.{EndsAs}
use azldev.Spec.Visit.Walk.Passes.{visit-EndsAs}
use azldev.Spec.Edit.{Edited, edited, unfinished, no_such_tag, visit_fuel, if_updated}
use azldev.Spec.Edit.Tags.{
  at_tag, in_package, visit_tags, visit_tags_package, update_visitor, update_existing_tag,
  remove_visitor, tag_matcher, remove_tags_matching, remove_tag, removed, not_removed, Removed,
  removed_of,
}
use azldev.Spec.Edit.Appended.{Outcome}
use azldev.Spec.Edit.Rewritten.{Rewritten}
use azldev.Spec.Edit.Dropped.{Fewer, remove_tag-Outcome}
use azldev.Spec.Edit.Actions.{update_action, remove_action}

update-acts :
    (package_name tag value : Text) (text : Text) (parsed : ParsedLine) (ctx : Context) (s : Bool)
    → at_tag (in_package package_name (update_visitor tag value)) text parsed ctx s
      ≡ act_on ctx (update_action package_name tag value text parsed ctx.current_section s)
unfolding at_tag in_package update_visitor
update-acts package_name tag value text (section_start_line kind name tokens) ctx s = refl
update-acts package_name tag value text (raw_line content) ctx s = refl
update-acts package_name tag value text (tag_line found_tag found_value) ctx s = ground arith

remove-acts :
    (equal_fold : Text → Text → Bool) (package_name tag value : Text) (text : Text)
    (parsed : ParsedLine) (ctx : Context) (n : ℕ)
    → at_tag
        (in_package package_name (remove_visitor (tag_matcher equal_fold tag value)))
        text
        parsed
        ctx
        n
      ≡ act_on ctx
          (remove_action equal_fold package_name tag value text parsed ctx.current_section n)
unfolding at_tag in_package remove_visitor tag_matcher
remove-acts equal_fold package_name tag value text (section_start_line kind name tokens) ctx n =
    refl
remove-acts equal_fold package_name tag value text (raw_line content) ctx n = refl
remove-acts equal_fold package_name tag value text (tag_line found_tag found_value) ctx n =
    ground arith

-- The end of an edit that sets a variable where it changes a line.
abbrev pub updated_of : Error → Walked Bool → Edited
updated_of not_found (failed, lines, updated) =
    edited (if updated then failed else some not_found) lines

if_updated-EndsAs :
    (not_found : Error) (walked : Walked Bool) (out : Visited Bool)
    → EndsAs [] walked out
    → if_updated not_found out ≡ updated_of not_found walked
unfolding if_updated
if_updated-EndsAs not_found (failed, lines, updated) out (ctx, e, l) =
    ap (if_updated not_found) e ∙ ap (edited (if updated then failed else some not_found)) l

pub update_existing_tag-pass :
    (package_name tag value : Text) (spec : List Text)
    → update_existing_tag package_name tag value spec
      ≡ updated_of
          (wrap "tag %#q not found in spec:\n%w" no_such_tag)
          (walk (update_action package_name tag value) spec false)
unfolding update_existing_tag visit_tags_package visit_tags visit_fuel
update_existing_tag-pass package_name tag value spec =
    if_updated-EndsAs (wrap "tag %#q not found in spec:\n%w" no_such_tag)
      (walk (update_action package_name tag value) spec false) _
      (visit-EndsAs (at_tag (in_package package_name (update_visitor tag value)))
        (update_action package_name tag value) (update-acts package_name tag value)
        (visit_fuel (length spec) 0) spec false (omega arith))

-- How a removal ends.
abbrev pub removal_of : Walked ℕ → Removed
removal_of (failed, lines, n) = removed failed n lines

pub removed_of-EndsAs :
    (walked : Walked ℕ) (out : Visited ℕ)
    → EndsAs [] walked out
    → removed_of out ≡ removal_of walked
unfolding removed_of
removed_of-EndsAs (failed, lines, n) out (ctx, e, l) = ap removed_of e ∙ ap (removed failed n) l

abbrev pub removed_tags_of : Walked ℕ → Edited
removed_tags_of (some e, lines, n) = edited (some e) lines
removed_tags_of (none, lines, n) =
    edited
      (if n =? 0
        then some (wrap "tag %#q with value %#q not found in spec:\n%w" no_such_tag)
        else none)
      lines

abbrev ended : Removed → Edited
ended out = elim out [
  | not_removed ↦ unfinished
  | removed (some e) n lines ↦ edited (some e) lines
  | removed none n lines ↦
      edited
        (if n =? 0
          then some (wrap "tag %#q with value %#q not found in spec:\n%w" no_such_tag)
          else none)
        lines
]

ended-removal : (walked : Walked ℕ) → ended (removal_of walked) ≡ removed_tags_of walked
ended-removal (some e, lines, n) = refl
ended-removal (none, lines, n) = refl

remove_tag-pass :
    (equal_fold : Text → Text → Bool) (package_name tag value : Text) (spec : List Text)
    → remove_tag equal_fold package_name tag value spec
      ≡ removed_tags_of (walk (remove_action equal_fold package_name tag value) spec 0)
unfolding remove_tag remove_tags_matching visit_tags_package visit_tags visit_fuel
remove_tag-pass equal_fold package_name tag value spec =
    ap ended (
      removed_of-EndsAs (walk (remove_action equal_fold package_name tag value) spec 0) _ (
        visit-EndsAs
          (at_tag (in_package package_name (remove_visitor (tag_matcher equal_fold tag value))))
          (remove_action equal_fold package_name tag value)
          (remove-acts equal_fold package_name tag value) (visit_fuel (length spec) 0) spec 0
          (omega arith)))
    ∙ ended-removal (walk (remove_action equal_fold package_name tag value) spec 0)

-- RemoveTag ends for every spec, and gives what one pass over its lines gives that leaves out each line
-- with that tag, in any case, in a section of the package, whose value is the one that is given, if
-- any. If there is no such line it gives an error and the spec as it was, or else fewer lines.
pub remove_tag-walk :
    (equal_fold : Text → Text → Bool) (package_name tag value : Text) (spec : List Text)
    → (remove_tag equal_fold package_name tag value spec
        ≡ removed_tags_of (walk (remove_action equal_fold package_name tag value) spec 0))
      × Outcome (Fewer spec) spec (remove_tag equal_fold package_name tag value spec)
remove_tag-walk equal_fold package_name tag value spec = (
  remove_tag-pass equal_fold package_name tag value spec,
  remove_tag-Outcome spec equal_fold package_name tag value,
)
