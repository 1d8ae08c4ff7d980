-- ===== src/Spec/Tree/Pairs.antt =====
-- The scans of tree.go over all lines, in which the bodies of macro definitions are opaque:
-- collectTreeConditionalPairs and findSectionHeaderLines.
use azldev.Prelude.{ℕ, suc, List, [], ◌∷◌, ◌++◌, Bool, true, false, Option, some, none}
use azldev.Prelude.{Result, ok, err, new, if◌then◌else◌, ◌=?◌, ltb, any, not, ◌&&◌, leb}
use azldev.Text.{Text}
use azldev.Spec.Lines.{
  opens, closes, same, conditional_depth_change, is_conditional_branch_directive, is_elif_directive,
  is_section_header_line, is_macro_def_line,
}
use azldev.Spec.Macro.{MacroState, new_macro, macro_body_state_after}

-- treeConditionalPair
pub record ConditionalPair : Type 0 where
  pub if_line : ℕ
  pub endif_line : ℕ

-- treeConditionalFrame; no else line is -1 in the code.
pub record ConditionalFrame : Type 0 where
  pub if_line : ℕ
  pub else_line : Option ℕ

-- Whether the scan is inside a macro body after a line, and in which state: `none` is outside.
abbrev pub body_if : MacroState × Bool → Option MacroState
body_if (state, true) = some state
body_if (state, false) = none

-- What a scan sees in a line outside a macro body, and how it goes on.
abbrev is_some : Option Text → Bool
is_some none = false
is_some (some name) = true

-- The scan state after a line, and whether the line is part of a macro definition.
unfoldable pub scan_line : Option MacroState → Text → Option MacroState × Bool
scan_line (some state) line = (body_if (macro_body_state_after line state), true)
scan_line none line =
    if is_some (is_macro_def_line line)
    then (body_if (macro_body_state_after line new_macro), true)
    else (none, false)

-- The frame that is left open, if there is one.
unfoldable pub unmatched :
    List ConditionalFrame → List ConditionalPair → Result (List ConditionalPair)
unmatched [] pairs = ok pairs
unmatched (frame ∷ stack) pairs = err (new "unmatched %%if at line %d")

-- A %else or %elif at a line, for the innermost open conditional.
unfoldable pub branch_frame : Text → ℕ → List ConditionalFrame → Result (List ConditionalFrame)
branch_frame line line_num [] =
    err (new "conditional branch directive at line %d is outside a conditional")
branch_frame line line_num (frame ∷ stack) = elim frame.else_line [
  | some else_line ↦
      err (new "conditional branch directive at line %d follows terminal %%else at line %d")
  | none ↦ ok (
      if is_elif_directive line
      then frame ∷ stack
      else record frame { else_line = some line_num } ∷ stack)
]

-- The switch of the loop: the stack and the pairs after a line outside macro bodies.
unfoldable pub conditional_step :
    Text
    → ℕ
    → List ConditionalFrame
    → List ConditionalPair
    → Result (List ConditionalFrame × List ConditionalPair)
unfolding branch_frame
conditional_step line line_num stack pairs = elim (conditional_depth_change line) [
  | opens ↦ ok (record { if_line = line_num; else_line = none } ∷ stack, pairs)
  | closes ↦ elim stack [
    | [] ↦ err (new "unmatched %%endif at line %d")
    | frame ∷ rest ↦
        ok (rest, pairs ++ (record { if_line = frame.if_line; endif_line = line_num } ∷ []))
  ]
  | same ↦
      if is_conditional_branch_directive line
      then elim (branch_frame line line_num stack) [
        | err e ↦ err e
        | ok stack' ↦ ok (stack', pairs)
      ]
      else ok (stack, pairs)
]

unfoldable pub collect_pairs_from :
    List Text
    → ℕ
    → Option MacroState
    → List ConditionalFrame
    → List ConditionalPair
    → Result (List ConditionalPair)
unfolding unmatched scan_line
collect_pairs_from [] line_num body stack pairs = unmatched stack pairs
collect_pairs_from (line ∷ lines) line_num body stack pairs =
    let (body', in_macro) = scan_line body line in
    elim in_macro [
      | true ↦ collect_pairs_from lines (suc line_num) body' stack pairs
      | false ↦ elim (conditional_step line line_num stack pairs) [
        | err e ↦ err e
        | ok (stack', pairs') ↦ collect_pairs_from lines (suc line_num) body' stack' pairs'
      ]
    ]

-- collectTreeConditionalPairs
unfoldable pub collect_tree_conditional_pairs : List Text → Result (List ConditionalPair)
unfolding collect_pairs_from
collect_tree_conditional_pairs raw_lines = collect_pairs_from raw_lines 0 none [] []

abbrev is_in_body : Option MacroState → Bool
is_in_body none = false
is_in_body (some state) = true

unfoldable pub headers_from : List Text → ℕ → Option MacroState → List ℕ
unfolding scan_line
headers_from [] line_idx body = []
headers_from (line ∷ lines) line_idx body =
    let rest = headers_from lines (suc line_idx) (scan_line body line).0 in
    if not (is_in_body body) && is_section_header_line line then line_idx ∷ rest else rest

-- findSectionHeaderLines
unfoldable pub find_section_header_lines : List Text → List ℕ
unfolding headers_from
find_section_header_lines raw_lines = headers_from raw_lines 0 none

-- sectionHeaderSet[line]
abbrev pub is_header : List ℕ → ℕ → Bool
is_header section_headers line = any (λ header. header =? line) section_headers

-- pairByIf[line]: the %endif line
unfoldable pub pair_by_if : List ConditionalPair → ℕ → Option ℕ
pair_by_if [] line = none
pair_by_if (pair ∷ pairs) line =
    if pair.if_line =? line then some pair.endif_line else pair_by_if pairs line

-- hasSectionHeaderInRange
unfoldable pub has_section_header_in_range : ℕ → ℕ → List ℕ → Bool
has_section_header_in_range start end section_headers =
    any (λ header. leb start header && ltb header end) section_headers
