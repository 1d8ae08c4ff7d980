-- ===== src/Spec/Tree/RoundTrip.antt =====
-- internal/rpm/spec/tree.go: serializeTree after parseTree.
use azldev.Prelude.{ℕ, suc, zero, ◌+◌, ◌*◌, List, [], true, ◌≡◌, arith}
use azldev.Prelude.{none, ok, inl, inr, length, ltb, ◌&&◌}
use azldev.Prelude.{Result-cases, Bool-cases}
use azldev.Text.{Text}
use azldev.Spec.Lines.{conditional_depth_change}
use azldev.Spec.Tree
use azldev.Spec.Tree.Shape.{Block, nil, serialize_tree, serialize_all}
use azldev.Spec.Tree.Pairs.{
  ConditionalPair, is_header, collect_tree_conditional_pairs, find_section_header_lines,
}
use azldev.Spec.Tree.Build.{line_at, build_block_children, build_conditional_branches}
use azldev.Spec.Tree.Runs.{Run}
use azldev.Spec.Tree.Collected.{depth-cases, Run-from_start}
use azldev.Spec.Tree.Ranges.{between-same, between-all}
use azldev.Spec.Tree.Kept.{
  serialize_all-flush_text, serialize_all-wrap_preamble, headers, BuildKeepsLines,
  BranchesKeepLines, found-Invariant, branches_step,
}
use azldev.Spec.Tree.Cases.{section_case, plain_case, conditional_case}

module _ (raw : List Text) (found : List ConditionalPair) (start : Run raw found 0 none [] []) where
  build_step :
      (fuel : ℕ)
      → BuildKeepsLines raw found start fuel
      → BranchesKeepLines raw found start fuel
      → BuildKeepsLines raw found start (suc fuel)
  unfolding build_block_children serialize_all
  build_step fuel build branches top_level a end buffer blocks inside whole h =
      elim (Bool-cases (ltb a end)) [
        | inr past ↦ ground (arith, serialize_all-flush_text buffer nil, between-same raw a)
        | inl more ↦ elim (Bool-cases (top_level && is_header (headers raw found start) a)) [
          | inl header ↦
              section_case raw found start fuel build top_level a end buffer blocks (ground arith)
                whole header h
          | inr plain ↦ elim (depth-cases (conditional_depth_change (line_at raw a))) [
            | inl cond ↦
                conditional_case raw found start fuel build branches top_level a end buffer blocks
                  (ground arith) whole cond plain h
            | inr other ↦
                plain_case raw found start fuel build top_level a end buffer blocks (ground arith)
                  whole (ground arith) plain h
          ]
        ]
      ]

  -- The second pass keeps the lines of its range, whatever the fuel, if it succeeds.
  keeps_lines :
      (fuel : ℕ) → BuildKeepsLines raw found start fuel × BranchesKeepLines raw found start fuel
  unfolding build_block_children build_conditional_branches
  keeps_lines zero = (
    λ top_level a end buffer blocks inside whole h. ground arith,
    λ is_wrapper i a k else_line children else_blocks directive body paired after inside searched h.
        ground arith,
  )
  keeps_lines (suc fuel) =
      let (build, branches) = keeps_lines fuel in
      (build_step fuel build branches, branches_step raw found start fuel build branches)

-- A spec file that parses is what its tree serializes to: no line is lost, changed or repeated.
pub serialize_tree-parse_tree :
    (raw_lines : List Text) (tree : Block)
    → Tree.parse_tree raw_lines ≡ ok tree
    → serialize_tree tree ≡ raw_lines
unfolding Tree.parse_tree serialize_tree
serialize_tree-parse_tree raw tree h = elim (Result-cases (collect_tree_conditional_pairs raw)) [
  | inr (_, e) ↦ ground arith
  | inl (pairs, e) ↦
      let headers = find_section_header_lines raw in
      let fuel = 2 * length raw + 1 in
      elim (Result-cases (build_block_children raw pairs headers fuel true 0 (length raw) [])) [
        | inr (_, f) ↦ ground arith
        | inl (blocks, f) ↦
            let start = Run-from_start raw pairs e in
            let inv = found-Invariant raw pairs start in
            ground (
              arith,
              serialize_all-wrap_preamble blocks,
              (keeps_lines raw pairs start fuel).0 true 0 (length raw) [] blocks (omega arith)
                  (λ i k low high g. (inv.paired_below i k g).1) f,
              between-all raw,
            )
      ]
]
