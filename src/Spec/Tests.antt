-- ===== src/Spec/Tests.antt =====
-- A small spec file with a section, a conditional with branches and a macro definition of two lines.
use azldev.Prelude.{ℕ, ◌<◌, ◌≤◌, List, [], ◌∷◌, map, Result, ok, err, ◌≡◌, refl, some}
use azldev.Text.{Text, codes, fields, trim_space, ◌==◌, to_lower, has_prefix, has_suffix, is_space}
use azldev.Spec.Lines.{
  is_macro_def_line, conditional_depth_change, is_conditional_branch_directive, is_elif_directive,
  get_package_name_for_section, get_package_name_from_section_header, closes,
  get_section_name_and_package_from_header, is_section_header_line, section_types_by_name,
}
use azldev.Spec.Macro.{
  macro_body_state_after, is_open, macro_state_after, consume, lua_long_delimiter,
}
use azldev.Spec.Tree.Build.{
  build_block_children, build_conditional_branches, find_else_directive_line, find_else_from,
  find_tree_section_end, flush_text, line_at, macro_lines_from, parse_macro_def_block,
  section_end_from,
}
use azldev.Text.Dict.{lookup}
use azldev.Spec.Tree.{parse_tree}
use azldev.Spec.Tree.Shape.{Block, root, nil, serialize_tree}
use azldev.Spec.Tree.Shape.{wrap_preamble}
use azldev.Spec.Tree.Pairs.{
  conditional_step, find_section_header_lines, branch_frame, scan_line, collect_pairs_from,
  headers_from, has_section_header_in_range, unmatched, ConditionalPair,
  collect_tree_conditional_pairs, pair_by_if,
}
use azldev.Spec.Tree.RoundTrip.{serialize_tree-parse_tree}
use azldev.Spec.Tree.Build.{out_of_fuel}
use azldev.Spec.Tree.InTime.{parse_tree-build_ne}
use azldev.Prelude.{◌≢◌, wrap}
use azldev.Spec.Tree.Collected.{collect_tree_conditional_pairs-nested}

abbrev sample : List Text
sample = map codes (
    "Name: a" ∷ "%if 1" ∷ "%if 2" ∷ "%endif" ∷ "%elif 3" ∷ "B: c" ∷ "%else" ∷ "%endif"
    ∷ "%define x \\" ∷ "%if" ∷ "%build -n a" ∷ "make" ∷ [])

abbrev tree_of : Result Block → Block
tree_of (ok tree) = tree
tree_of (err e) = root nil

sample_tree : Block
unfolding parse_tree
sample_tree = tree_of (parse_tree sample)

sample_parses : parse_tree sample ≡ ok sample_tree
unfolding sample_tree parse_tree collect_tree_conditional_pairs is_macro_def_line fields trim_space
    ◌==◌ to_lower conditional_step conditional_depth_change has_prefix
    is_conditional_branch_directive is_elif_directive macro_body_state_after has_suffix is_open
    macro_state_after build_block_children find_section_header_lines get_package_name_for_section
    get_package_name_from_section_header get_section_name_and_package_from_header
    is_section_header_line section_types_by_name consume lua_long_delimiter find_else_directive_line
    find_else_from find_tree_section_end flush_text line_at macro_lines_from parse_macro_def_block
    section_end_from branch_frame scan_line collect_pairs_from headers_from
    has_section_header_in_range unmatched pair_by_if wrap_preamble build_conditional_branches lookup
    is_space
sample_parses = refl

serialize_tree-parse_tree_example : serialize_tree sample_tree ≡ sample
serialize_tree-parse_tree_example = serialize_tree-parse_tree sample sample_tree sample_parses

abbrev sample_pairs : List ConditionalPair
sample_pairs = record { if_line = 2; endif_line = 3 } ∷ record { if_line = 1; endif_line = 7 } ∷ []

sample_collects : collect_tree_conditional_pairs sample ≡ ok sample_pairs
unfolding collect_tree_conditional_pairs collect_pairs_from scan_line is_macro_def_line fields
    trim_space is_space ◌==◌ to_lower conditional_step branch_frame conditional_depth_change
    has_prefix is_conditional_branch_directive is_elif_directive macro_body_state_after has_suffix
    is_open macro_state_after unmatched
sample_collects = refl

collect_tree_conditional_pairs-nested_example :
    ((i k : ℕ)
      → pair_by_if sample_pairs i ≡ some k
      → (i < k) × (k < 12) × (conditional_depth_change (line_at sample k) ≡ closes))
    × ((i k j m : ℕ)
        → pair_by_if sample_pairs i ≡ some k
        → pair_by_if sample_pairs j ≡ some m
        → i < j
        → j ≤ k
        → m < k)
collect_tree_conditional_pairs-nested_example =
    collect_tree_conditional_pairs-nested sample sample_pairs sample_collects

sample_else : find_else_directive_line sample 2 7 ≡ some 4
unfolding find_else_directive_line find_else_from line_at scan_line is_macro_def_line fields
    trim_space is_space ◌==◌ to_lower conditional_depth_change has_prefix
    is_conditional_branch_directive
sample_else = refl

parse_tree-build_ne_example : parse_tree sample ≢ err (wrap "building spec tree:\n%w" out_of_fuel)
parse_tree-build_ne_example = parse_tree-build_ne sample
