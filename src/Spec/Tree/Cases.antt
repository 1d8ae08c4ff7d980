-- ===== src/Spec/Tree/Cases.antt =====
-- internal/rpm/spec/tree.go: the cases of buildBlockChildren.
use azldev.Prelude.{ℕ, suc, ◌<◌, List, [], ◌∷◌, ◌++◌, Bool, true, false, ◌≡◌, refl, arith}
use azldev.Prelude.{none, ok, inl, inr, length, ◌&&◌, append_assoc, ◌≢◌}
use azldev.Prelude.{Option-cases, Result-cases}
use azldev.Text.{Text}
use azldev.Spec.Lines.{opens, conditional_depth_change, is_macro_def_line}
use azldev.Spec.Lines.{get_section_name_and_package_from_header}
use azldev.Spec.Tree.Shape.{
  Blocks, cons, section, conditional, line_of, serialize_tree, serialize_all,
}
use azldev.Spec.Tree.Pairs.{ConditionalPair, pair_by_if, is_header, has_section_header_in_range}
use azldev.Spec.Tree.Build.{
  line_at, find_else_directive_line, find_tree_section_end, parse_macro_def_block, or_end,
  build_block_children, build_conditional_branches,
}
use azldev.Spec.Tree.Nesting.{start-Invariant}
use azldev.Spec.Tree.Runs.{Run}
use azldev.Spec.Tree.Bodies.{body_at}
use azldev.Spec.Tree.Ranges.{
  between, between-append, between-cons, Whole, line_of-header, line_of-closes,
  find_section_header_lines-header, find_tree_section_end-Whole, parse_macro_def_block-eq_ok,
}
use azldev.Spec.Tree.Kept.{
  serialize_all-flush_text, regroup, headers, BuildKeepsLines, BranchesKeepLines, found-Invariant,
  paired_closes,
}

module _ (raw : List Text) (found : List ConditionalPair) (start : Run raw found 0 none [] []) where
  pub section_case :
      (fuel : ℕ)
      → BuildKeepsLines raw found start fuel
      → (top_level : Bool) (a end : ℕ) (buffer : List Text) (blocks : Blocks) → a < end
      → Whole found a end
      → (top_level && is_header (headers raw found start) a) ≡ true
      → build_block_children raw found (headers raw found start) (suc fuel) top_level a end buffer
        ≡ ok blocks
      → serialize_all blocks ≡ buffer ++ between raw a end
  unfolding build_block_children serialize_all serialize_tree
  section_case fuel build top_level a end buffer blocks below whole header h =
      let line = line_at raw a in
      let (name, pkg) = get_section_name_and_package_from_header line in
      let s = find_tree_section_end found (headers raw found start) (suc a) end in
      let (low, high, section_whole) =
        find_tree_section_end-Whole (length raw) found (headers raw found start)
          (found-Invariant raw found start) (suc a) end (ground arith)
          (λ i k low' high' e. whole i k (omega (arith, low')) high' e) in
      elim (Result-cases
        (build_block_children raw found (headers raw found start) fuel false (suc a) s [])) [
          | inr (_, f) ↦ ground arith
          | inl (children, f) ↦
              elim (Result-cases (
                build_block_children raw found (headers raw found start) fuel top_level s end [])) [
                  | inr (_, g) ↦ ground arith
                  | inl (rest, g) ↦ ground (
                    arith,
                    serialize_all-flush_text buffer (cons (section line name pkg children) rest),
                    build false (suc a) s [] children low section_whole f,
                    build top_level s end [] rest high
                        (λ i k low' high' e. whole i k (omega (arith, low, low')) high' e) g,
                    line_of-header line (find_section_header_lines-header raw a (ground arith)),
                    between-cons raw a end (ground arith),
                    between-append raw (suc a) s end low high,
                  )
                ]
        ]

  pub plain_case :
      (fuel : ℕ)
      → BuildKeepsLines raw found start fuel
      → (top_level : Bool) (a end : ℕ) (buffer : List Text) (blocks : Blocks) → a < end
      → Whole found a end
      → conditional_depth_change (line_at raw a) ≢ opens
      → (top_level && is_header (headers raw found start) a) ≡ false
      → build_block_children raw found (headers raw found start) (suc fuel) top_level a end buffer
        ≡ ok blocks
      → serialize_all blocks ≡ buffer ++ between raw a end
  unfolding build_block_children serialize_all serialize_tree
  plain_case fuel build top_level a end buffer blocks below whole other plain h =
      let line = line_at raw a in
      elim (Option-cases (is_macro_def_line line)) [
        | inl ordinary ↦ ground (
          arith,
          build top_level (suc a) end (buffer ++ (line ∷ [])) blocks (ground arith)
              (λ i k low' high' e. whole i k (omega (arith, low')) high' e),
          between-cons raw a end (ground arith),
          append_assoc buffer (line ∷ []) (between raw (suc a) end),
        )
        | inr (name, defines) ↦ elim (Result-cases (parse_macro_def_block raw a end name)) [
          | inr (_, f) ↦ ground arith
          | inl ((block, next), f) ↦
              let (low, high, taken) =
                parse_macro_def_block-eq_ok raw a end name block next (ground arith) f in
              elim (Result-cases (
                build_block_children raw found (headers raw found start) fuel top_level next end
                  [])) [
                    | inr (_, g) ↦ ground arith
                    | inl (rest, g) ↦ ground (
                      arith,
                      serialize_all-flush_text buffer (cons block rest),
                      taken,
                      build top_level next end [] rest high
                          (λ i k low' high' e. whole i k (omega (arith, low, low')) high' e) g,
                      between-append raw a next end (omega (arith, low)) high,
                    )
                  ]
        ]
      ]

  pub conditional_case :
      (fuel : ℕ)
      → BuildKeepsLines raw found start fuel
      → BranchesKeepLines raw found start fuel
      → (top_level : Bool) (a end : ℕ) (buffer : List Text) (blocks : Blocks) → a < end
      → Whole found a end
      → conditional_depth_change (line_at raw a) ≡ opens
      → (top_level && is_header (headers raw found start) a) ≡ false
      → build_block_children raw found (headers raw found start) (suc fuel) top_level a end buffer
        ≡ ok blocks
      → serialize_all blocks ≡ buffer ++ between raw a end
  unfolding build_block_children serialize_all serialize_tree
  conditional_case fuel build branches top_level a end buffer blocks below whole cond plain h =
      elim (Option-cases (pair_by_if found a)) [
        | inl unpaired ↦ ground arith
        | inr (k, paired) ↦
            let else_line = find_else_directive_line raw (suc a) k in
            let is_wrapper = has_section_header_in_range (suc a) k (headers raw found start) in
            let (order, bound) = (found-Invariant raw found start).paired_below a k paired in
            let ends = whole a k (omega arith) below paired in
            elim (Result-cases (
              build_conditional_branches raw found (headers raw found start) fuel is_wrapper (suc a)
                (or_end else_line k) else_line k)) [
                  | inr (_, f) ↦ ground arith
                  | inl ((children, directive, else_blocks), f) ↦
                      elim (Result-cases (
                        build_block_children raw found (headers raw found start) fuel top_level
                          (suc k) end [])) [
                            | inr (_, g) ↦ ground arith
                            | inl (rest, g) ↦
                                let block =
                                  conditional (line_at raw a) children directive else_blocks
                                    (line_at raw k) in
                                ground (
                                  arith,
                                  serialize_all-flush_text buffer (cons block rest),
                                  branches is_wrapper a (suc a) k else_line children else_blocks
                                      directive
                                      (body_at raw found 0 none [] [] start start-Invariant a k
                                        (omega arith) paired)
                                      paired (omega arith) (omega (arith, order)) refl f,
                                  build top_level (suc k) end [] rest (omega (arith, ends))
                                      (λ i m low high e.
                                        whole i m (omega (arith, low, order)) high e)
                                      g,
                                  regroup (serialize_all children) (line_of directive)
                                      (serialize_all else_blocks) (line_at raw k ∷ [])
                                      (serialize_all rest),
                                  line_of-closes (line_at raw k)
                                      (paired_closes raw found start a k paired),
                                  between-cons raw a end below,
                                  between-cons raw k end ends,
                                  between-append raw (suc a) k end (omega (arith, order))
                                      (omega (arith, ends)),
                                )
                          ]
                ]
      ]
