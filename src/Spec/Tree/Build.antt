-- ===== src/Spec/Tree/Build.antt =====
-- The second pass of parseTree. The functions of tree.go work on line numbers in [start, end). The
-- two parsers that call each other take fuel, two units for each line of their range.
use azldev.Prelude.{ℕ, suc, zero, ◌-◌, List, [], ◌∷◌, ◌++◌, Bool, true, false, ◌&&◌}
use azldev.Prelude.{Option, some, none, Result, ok, err, new, ◌>>=◌, ltb}
use azldev.Prelude.{ℤ, pos, negsuc, is_pos, Error}
use azldev.Text.{Text}
use azldev.Spec.Lines.{
  opens, closes, same, conditional_depth_change, is_conditional_branch_directive, is_elif_directive,
  is_macro_def_line, get_section_name_and_package_from_header,
}
use azldev.Spec.Macro.{MacroState, new_macro, macro_body_state_after}
use azldev.Spec.Tree.Shape.{Block, Blocks, nil, cons, section, conditional, text, macro_def}
use azldev.Spec.Tree.Pairs.{
  ConditionalPair, scan_line, is_header, pair_by_if, has_section_header_in_range,
}

-- rawLines[i]; the parsers stay inside the range of the lines.
unfoldable pub line_at : List Text → ℕ → Text
line_at [] i = []
line_at (line ∷ lines) zero = line
line_at (line ∷ lines) (suc i) = line_at lines i

-- depth++ and depth--, on Go's int
abbrev pub deeper : ℤ → ℤ
deeper (pos n) = pos (suc n)
deeper (negsuc zero) = pos 0
deeper (negsuc (suc n)) = negsuc n

abbrev pub shallower : ℤ → ℤ
shallower (pos zero) = negsuc 0
shallower (pos (suc n)) = pos n
shallower (negsuc n) = negsuc (suc n)

-- The loop of findElseDirectiveLine, over the rounds that are left.
unfoldable pub find_else_from : List Text → ℕ → ℕ → ℤ → Option MacroState → Option ℕ
find_else_from raw_lines zero line_idx depth body = none
find_else_from raw_lines (suc rounds) line_idx depth body =
    let line = line_at raw_lines line_idx in
    let (body', in_macro) = scan_line body line in
    elim in_macro [
      | true ↦ find_else_from raw_lines rounds (suc line_idx) depth body'
      | false ↦ elim (conditional_depth_change line) [
        | opens ↦ find_else_from raw_lines rounds (suc line_idx) (deeper depth) none
        | closes ↦ find_else_from raw_lines rounds (suc line_idx) (shallower depth) none
        | same ↦ elim (is_pos depth 0 && is_conditional_branch_directive line) [
          | true ↦ some line_idx
          | false ↦ find_else_from raw_lines rounds (suc line_idx) depth none
        ]
      ]
    ]

-- findElseDirectiveLine; `none` is -1.
unfoldable pub find_else_directive_line : List Text → ℕ → ℕ → Option ℕ
find_else_directive_line raw_lines start end =
    find_else_from raw_lines (end - start) start (pos 0) none

-- The loop of findTreeSectionEnd. A round takes one line or more, so that `end - start` rounds do.
unfoldable pub section_end_from : List ConditionalPair → List ℕ → ℕ → ℕ → ℕ → ℕ
section_end_from pairs headers zero line_idx end = end
section_end_from pairs headers (suc rounds) line_idx end = elim (ltb line_idx end) [
  | false ↦ end
  | true ↦ elim (is_header headers line_idx) [
    | true ↦ line_idx
    | false ↦ elim (pair_by_if pairs line_idx) [
      | none ↦ section_end_from pairs headers rounds (suc line_idx) end
      | some endif_line ↦ elim (has_section_header_in_range (suc line_idx) endif_line headers) [
        | true ↦ line_idx
        | false ↦ section_end_from pairs headers rounds (suc endif_line) end
      ]
    ]
  ]
]

-- findTreeSectionEnd
unfoldable pub find_tree_section_end : List ConditionalPair → List ℕ → ℕ → ℕ → ℕ
find_tree_section_end pairs headers start end =
    section_end_from pairs headers (end - start) start end

-- The loop of parseMacroDefBlock over the lines that continue a macro: the lines, and the next line
-- number.
unfoldable pub macro_lines_from : List Text → ℕ → ℕ → MacroState → Result (List Text × ℕ)
macro_lines_from raw_lines zero line_idx state = err (new "unterminated macro construct at line %d")
macro_lines_from raw_lines (suc rounds) line_idx state =
    let line = line_at raw_lines line_idx in
    let (state', continues) = macro_body_state_after line state in
    elim continues [
      | false ↦ ok (line ∷ [], suc line_idx)
      | true ↦ elim (macro_lines_from raw_lines rounds (suc line_idx) state') [
        | err e ↦ err e
        | ok (lines, next) ↦ ok (line ∷ lines, next)
      ]
    ]

-- parseMacroDefBlock
unfoldable pub parse_macro_def_block : List Text → ℕ → ℕ → Text → Result (Block × ℕ)
parse_macro_def_block raw_lines start end name =
    let line = line_at raw_lines start in
    let (state, continues) = macro_body_state_after line new_macro in
    elim continues [
      | false ↦ ok (macro_def line name (line ∷ []), suc start)
      | true ↦ elim (macro_lines_from raw_lines (end - suc start) (suc start) state) [
        | err e ↦ err e
        | ok (lines, next) ↦ ok (macro_def line name (line ∷ lines), next)
      ]
    ]

-- flushText: the buffered lines as a text block, before the blocks that follow.
unfoldable pub flush_text : List Text → Blocks → Blocks
flush_text [] blocks = blocks
flush_text (line ∷ buffer) blocks = cons (text (line ∷ buffer)) blocks

abbrev pub or_end : Option ℕ → ℕ → ℕ
or_end none end = end
or_end (some line) end = line

-- The model's own error, none of the code.
abbrev pub out_of_fuel : Error
out_of_fuel = new "out of fuel"

-- The branches of a conditional: its children, its else directive and its else branch.
abbrev Branches : Type 0
Branches = Blocks × Text × Blocks

module _ (raw_lines : List Text) (pairs : List ConditionalPair) (headers : List ℕ) where
  -- buildBlockChildren: the blocks of the lines in [line_idx, end), after the buffered text.
  -- buildConditionalBranches: the branches of a conditional, from the first line of its body.
  unfoldable mutual
    pub build_block_children : ℕ → Bool → ℕ → ℕ → List Text → Result Blocks
    build_block_children zero top_level line_idx end buffer = err out_of_fuel
    build_block_children (suc fuel) top_level line_idx end buffer = elim (ltb line_idx end) [
      | false ↦ ok (flush_text buffer nil)
      | true ↦ elim (top_level && is_header headers line_idx) [
        | true ↦
            let line = line_at raw_lines line_idx in
            let (name, pkg) = get_section_name_and_package_from_header line in
            let section_end = find_tree_section_end pairs headers (suc line_idx) end in
            do
              children ← build_block_children fuel false (suc line_idx) section_end []
              rest ← build_block_children fuel top_level section_end end []
              ok (flush_text buffer (cons (section line name pkg children) rest))
        | false ↦ elim (conditional_depth_change (line_at raw_lines line_idx)) [
          | opens ↦ elim (pair_by_if pairs line_idx) [
            | none ↦ err (new "%%if at line %d has no matching pair")
            | some endif_line ↦
                let else_line = find_else_directive_line raw_lines (suc line_idx) endif_line in
                let is_wrapper = has_section_header_in_range (suc line_idx) endif_line headers in
                do
                  (children, else_directive, else_blocks) ←
                      build_conditional_branches fuel is_wrapper (suc line_idx)
                        (or_end else_line endif_line) else_line endif_line
                  rest ← build_block_children fuel top_level (suc endif_line) end []
                  ok (
                      flush_text buffer (
                        cons
                          (conditional (line_at raw_lines line_idx) children else_directive
                            else_blocks (line_at raw_lines endif_line))
                          rest))
          ]
          | _ ↦ elim (is_macro_def_line (line_at raw_lines line_idx)) [
            | some name ↦ do
              (block, next) ← parse_macro_def_block raw_lines line_idx end name
              rest ← build_block_children fuel top_level next end []
              ok (flush_text buffer (cons block rest))
            | none ↦
                build_block_children fuel top_level (suc line_idx) end
                  (buffer ++ (line_at raw_lines line_idx ∷ []))
          ]
        ]
      ]
    ]

    pub build_conditional_branches : ℕ → Bool → ℕ → ℕ → Option ℕ → ℕ → Result Branches
    build_conditional_branches zero is_wrapper body_start then_end else_line body_end =
        err out_of_fuel
    build_conditional_branches (suc fuel) is_wrapper body_start then_end none body_end = do
      children ← build_block_children fuel is_wrapper body_start then_end []
      ok (children, [], nil)
    build_conditional_branches (suc fuel) is_wrapper body_start then_end (some else_line) body_end =
        do
          children ← build_block_children fuel is_wrapper body_start then_end []
          let directive = line_at raw_lines else_line
          elim (is_elif_directive directive) [
            | true ↦
                let next_else = find_else_directive_line raw_lines (suc else_line) body_end in
                do
                  (then', directive', else') ←
                      build_conditional_branches fuel is_wrapper (suc else_line)
                        (or_end next_else body_end) next_else body_end
                  ok (children, [], cons (conditional directive then' directive' else' []) nil)
            | false ↦ do
              else_blocks ← build_block_children fuel is_wrapper (suc else_line) body_end []
              ok (children, directive, else_blocks)
          ]
