-- ===== src/Spec/PrependTests.antt =====
-- PrependLinesToSection on a small spec file.
use azldev.Spec.Edit.Patches.{}
use azldev.Prelude.{[], ◌∷◌, map, ◌≡◌, refl}
use azldev.Text.{codes, ◌==◌}
use azldev.Text.{fields, trim_space, is_space, has_prefix, to_lower}
use azldev.Text.Dict.{lookup}
use azldev.Spec.Lines.{
  section_types_by_name, get_package_name_for_section, get_package_name_from_section_header,
}
use azldev.Spec.Tree.Build.{line_at}
use azldev.Spec.Parsed.{
  parse_spec_line, new_parsed_line, state_after, parse_logical_line, parse_content, match_tag,
}
use azldev.Spec.Visit.{
  visit, visit_start, visit_lines, visit_line, visit_parsed, visit_if_due, visit_end,
  initial_context, advance, parse_current, end_section, start_section, at_line, insert_lines_before,
  insert_lines_at,
}
use azldev.Spec.Edit.{visit_fuel, if_updated}
use azldev.Spec.Balance.{}
use azldev.Spec.Balance.Remove.{}
use azldev.Spec.Edit.Appended.{Outcome, Appended}
use azldev.Prelude.{false, arith}
use azldev.Spec.Parsed.{new_parse_state}
use azldev.Spec.Lines.{script_section}
use azldev.Spec.Visit.{out_of_fuel, insert_lines_after}
use azldev.Spec.Edit.{prepend_visitor, prepend_lines_to_section}
use azldev.Spec.Edit.Prepended.{prepend_lines_to_section-Outcome}
use azldev.Spec.Edit.Prepended.Headers.{Heads, starts_section}
use azldev.Spec.Edit.Prepended.Endless.{visit-prepend_visitor_endless}
use azldev.Spec.EditTests.{small, lines_of}

x_starts_none : starts_section (codes "x") new_parse_state ≡ false
unfolding new_parsed_line parse_logical_line parse_content fields trim_space has_prefix match_tag
x_starts_none = refl

prepend_lines_to_section-Outcome_example :
    Outcome
      (Appended small (codes "x" ∷ []))
      small
      (prepend_lines_to_section (codes "%build") [] (codes "x" ∷ []) small)
unfolding ◌==◌
prepend_lines_to_section-Outcome_example =
    prepend_lines_to_section-Outcome (codes "%build") [] [] (codes "x") small refl x_starts_none

prepend_test :
    lines_of (prepend_lines_to_section (codes "%build") [] (codes "x" ∷ []) small)
    ≡ map codes (
        "Name: a" ∷ "Version: 1" ∷ "" ∷ "%build" ∷ "x" ∷ "make" ∷ "%if 1" ∷ "%check" ∷ "test"
        ∷ "%endif" ∷ "%files" ∷ "%doc a" ∷ [])
unfolding prepend_lines_to_section prepend_visitor insert_lines_after insert_lines_before
    insert_lines_at visit visit_start visit_lines visit_line visit_parsed visit_if_due visit_end
    initial_context advance parse_current end_section start_section at_line line_at parse_spec_line
    new_parsed_line state_after parse_logical_line parse_content match_tag fields trim_space
    is_space has_prefix to_lower ◌==◌ lookup section_types_by_name get_package_name_for_section
    get_package_name_from_section_header visit_fuel if_updated
prepend_test = refl

build-Heads : Heads (codes "%build") [] (codes "%build")
unfolding new_parsed_line parse_logical_line fields trim_space is_space has_prefix to_lower lookup
    section_types_by_name get_package_name_for_section get_package_name_from_section_header ◌==◌
build-Heads = record {
  kind = script_section;
  tokens = codes "%build" ∷ [];
  starts = λ state. refl;
  of_package = refl;
}

visit-prepend_visitor_endless_example :
    visit (prepend_visitor (codes "%build") [] (codes "a" ∷ codes "%build" ∷ [])) 100 small false
    ≡ out_of_fuel
unfolding ◌==◌ line_at
visit-prepend_visitor_endless_example =
    visit-prepend_visitor_endless (codes "%build") [] (codes "a" ∷ []) (codes "%build") refl
      build-Heads small 3 (omega arith) build-Heads 100
