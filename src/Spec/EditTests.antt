-- ===== src/Spec/EditTests.antt =====
-- Edits of a small spec file, with a conditional and patches.
use azldev.Prelude.{ℤ}
use azldev.Spec.Edit.Patches.{
  remove_patch_entry, remove_patch_tags_matching, remove_patchlist_entries_matching,
  patch_tag_visitor, patchlist_visitor, patchlist_line, remove_if_matching, parse_patch_tag_number,
  patches_removed,
}
use azldev.Prelude.{Result, ok, Bool, true}
use azldev.RpmVersion.{atoi}
use azldev.Spec.Visit.{remove_current, remove_line}
use azldev.Spec.Edit.{has_section_visitor, found_at, has_section}
use azldev.Spec.Edit.Tags.{removed_of}
use azldev.Prelude.{List, [], ◌∷◌, map, ◌≡◌, refl, some, none}
use azldev.Text.{Text, codes, ◌==◌}
use azldev.Spec.Edit.{Edited, edited, unfinished, append_lines_to_section}
use azldev.Spec.Edit.Tags.{set_tag, update_existing_tag, remove_tag}
use azldev.Text.{fields, trim_space, is_space, has_prefix, to_lower}
use azldev.Text.Dict.{lookup}
use azldev.Spec.Lines.{
  section_types_by_name, get_package_name_for_section, get_package_name_from_section_header,
  conditional_depth_change, is_conditional_branch_directive,
}
use azldev.Spec.Tree.Build.{line_at}
use azldev.Spec.Parsed.{
  parse_spec_line, new_parsed_line, state_after, parse_logical_line, parse_content, match_tag,
}
use azldev.Spec.Visit.{
  visit, visit_start, visit_lines, visit_line, visit_parsed, visit_if_due, visit_end,
  initial_context, advance, parse_current, end_section, start_section, at_line, insert_lines_before,
  insert_lines_at, replace_current, replace_line, remove_lines,
}
use azldev.Spec.Edit.{
  visit_fuel, if_updated, append_visitor, append_at_end, at_section_end, at_section_line,
}
use azldev.Spec.Edit.Tags.{visit_tags_package, visit_tags, at_tag, in_package, update_visitor}
use azldev.Spec.Balance.{
  collect_from, trim_loop, has_content, has_content_from, is_content, is_blank_or_comment,
  validate_no_branch_directives, has_external_branch, enclosing_pair, trimmed_range,
}
use azldev.Spec.Balance.Remove.{
  remove_found, collect_section_ranges, range_visitor, scan_range, balance_found, balance_all,
  remove_ranges,
}
use azldev.Spec.Edit.Appended.{Outcome, Appended, append_lines_to_section-Outcome}
use azldev.Spec.Edit.Rewritten.{Rewritten}
use azldev.Spec.Edit.Dropped.{Fewer}
use azldev.Spec.Balance.{balance_range, collect_conditional_pairs}
use azldev.Spec.Balance.Remove.{remove_section, remove_subpackage}
use azldev.Spec.Balance.Sections.{Removal, remove_section-Removal, remove_subpackage-Removal}
use azldev.Spec.Visit.Walk.{walk}
use azldev.Spec.Edit.Actions.{remove_action}
use azldev.Spec.Edit.Walks.{removed_tags_of, remove_tag-walk}
use azldev.Prelude.{pos, negsuc, ◌+◌, ◌++◌, ℤ}

abbrev pub small : List Text
small = map codes (
    "Name: a" ∷ "Version: 1" ∷ "" ∷ "%build" ∷ "make" ∷ "%if 1" ∷ "%check" ∷ "test" ∷ "%endif"
    ∷ "%files" ∷ "%doc a" ∷ [])

abbrev pub lines_of : Edited → List Text
lines_of (edited none lines) = lines
lines_of (edited (some e) lines) = []
lines_of unfinished = []

append_lines_to_section_test :
    lines_of (append_lines_to_section (codes "%build") [] (codes "x" ∷ []) small)
    ≡ map codes (
        "Name: a" ∷ "Version: 1" ∷ "" ∷ "%build" ∷ "make" ∷ "%if 1" ∷ "x" ∷ "%check" ∷ "test"
        ∷ "%endif" ∷ "%files" ∷ "%doc a" ∷ [])
unfolding append_lines_to_section append_visitor append_at_end at_section_end insert_lines_before
    insert_lines_at visit visit_start visit_lines visit_line visit_parsed visit_if_due visit_end
    initial_context advance parse_current end_section start_section at_line line_at parse_spec_line
    new_parsed_line state_after parse_logical_line parse_content match_tag fields trim_space
    is_space has_prefix to_lower ◌==◌ lookup section_types_by_name get_package_name_for_section
    get_package_name_from_section_header visit_fuel if_updated
append_lines_to_section_test = refl

set_tag_test :
    lines_of (set_tag [] (codes "version") (codes "2") small)
    ≡ map codes (
        "Name: a" ∷ "version: 2" ∷ "" ∷ "%build" ∷ "make" ∷ "%if 1" ∷ "%check" ∷ "test" ∷ "%endif"
        ∷ "%files" ∷ "%doc a" ∷ [])
unfolding set_tag update_existing_tag visit_tags_package visit_tags at_tag in_package update_visitor
    at_section_line replace_current replace_line visit visit_start visit_lines visit_line
    visit_parsed visit_if_due visit_end initial_context advance parse_current end_section
    start_section at_line line_at parse_spec_line new_parsed_line state_after parse_logical_line
    parse_content match_tag fields trim_space is_space has_prefix to_lower ◌==◌ lookup
    section_types_by_name get_package_name_for_section get_package_name_from_section_header
    visit_fuel if_updated
set_tag_test = refl

remove_section_test :
    lines_of (remove_section (codes "%build") [] small)
    ≡ map codes (
        "Name: a" ∷ "Version: 1" ∷ "" ∷ "%if 1" ∷ "%check" ∷ "test" ∷ "%endif" ∷ "%files" ∷ "%doc a"
        ∷ [])
unfolding remove_section remove_found collect_section_ranges range_visitor scan_range balance_found
    collect_conditional_pairs collect_from conditional_depth_change balance_all balance_range
    trim_loop has_content has_content_from is_content is_blank_or_comment
    validate_no_branch_directives has_external_branch is_conditional_branch_directive enclosing_pair
    trimmed_range remove_ranges remove_lines visit visit_start visit_lines visit_line visit_parsed
    visit_if_due visit_end initial_context advance parse_current end_section start_section at_line
    line_at parse_spec_line new_parsed_line state_after parse_logical_line parse_content match_tag
    fields trim_space is_space has_prefix to_lower ◌==◌ lookup section_types_by_name
    get_package_name_for_section get_package_name_from_section_header visit_fuel if_updated
remove_section_test = refl

append_lines_to_section-Outcome_example :
    Outcome
      (Appended small (codes "x" ∷ []))
      small
      (append_lines_to_section (codes "%build") [] (codes "x" ∷ []) small)
append_lines_to_section-Outcome_example =
    append_lines_to_section-Outcome (codes "%build") [] (codes "x" ∷ []) small

abbrev emptied : Text → Text
emptied text = []

remove_section-Removal_example : Removal (remove_section (codes "%build") [] small) small
remove_section-Removal_example = remove_section-Removal (codes "%build") [] small

remove_subpackage-Removal_example : Removal (remove_subpackage (codes "devel") small) small
remove_subpackage-Removal_example = remove_subpackage-Removal (codes "devel") small

abbrev patched : List Text
patched = map codes ("Patch1: a.patch" ∷ "Name: a" ∷ "%patchlist" ∷ "b.patch" ∷ [])

abbrev match_all : Text → Result Bool
match_all text = ok true

remove_patch_entry_test :
    remove_patch_entry match_all patched ≡ edited none (map codes ("Name: a" ∷ "%patchlist" ∷ []))
unfolding remove_patch_entry remove_patch_tags_matching remove_patchlist_entries_matching
    patch_tag_visitor patchlist_visitor patchlist_line remove_if_matching parse_patch_tag_number
    atoi patches_removed removed_of has_section has_section_visitor found_at visit_tags at_tag
    at_section_line remove_current remove_line remove_lines visit visit_start visit_lines visit_line
    visit_parsed visit_if_due visit_end initial_context advance parse_current end_section
    start_section at_line line_at parse_spec_line new_parsed_line state_after parse_logical_line
    parse_content match_tag fields trim_space is_space has_prefix to_lower ◌==◌ lookup
    section_types_by_name get_package_name_for_section get_package_name_from_section_header
    visit_fuel
remove_patch_entry_test = refl

remove_tag-walk_example :
    (remove_tag ◌==◌ [] (codes "version") [] small
      ≡ removed_tags_of (walk (remove_action ◌==◌ [] (codes "version") []) small 0))
    × Outcome (Fewer small) small (remove_tag ◌==◌ [] (codes "version") [] small)
remove_tag-walk_example = remove_tag-walk ◌==◌ [] (codes "version") [] small

-- Numbers of one digit.
abbrev one_digit : ℤ → Text
one_digit (pos n) = (48 + n) ∷ []
one_digit (negsuc n) = codes "-" ++ ((49 + n) ∷ [])

abbrev with_patches : List Text
with_patches =
    map codes ("Name: a" ∷ "Patch0: a.patch" ∷ "patch3: b.patch" ∷ "Patch: d.patch" ∷ "%build" ∷ [])
