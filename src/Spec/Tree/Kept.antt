-- ===== src/Spec/Tree/Kept.antt =====
-- internal/rpm/spec/tree.go: the lines of the text buffer, of the preamble, and of the branches of a
-- conditional, as serializeTree gives them.
use azldev.Prelude.{ℕ, suc, ◌≤◌, ◌<◌, List, [], ◌∷◌, ◌++◌, Bool, ◌≡◌, refl, arith}
use azldev.Prelude.{Option, some, none, ok, inl, inr, length, append-nil, append_assoc, sym, ◌∙◌}
use azldev.Prelude.{Result-cases, Bool-cases}
use azldev.Text.{Text}
use azldev.Spec.Lines.{closes, conditional_depth_change}
use azldev.Spec.Lines.{is_elif_directive}
use azldev.Spec.Tree.Shape.{
  Blocks, nil, cons, line_of, serialize_tree, serialize_all, is_section_or_wrapper, split_preamble,
  wrap_preamble,
}
use azldev.Spec.Tree.Pairs.{ConditionalPair, pair_by_if, find_section_header_lines}
use azldev.Spec.Tree.Build.{
  line_at, find_else_directive_line, flush_text, or_end, build_block_children,
  build_conditional_branches,
}
use azldev.Spec.Tree.Nesting.{Invariant, start-Invariant}
use azldev.Spec.Tree.Runs.{Run, Run-closes, Run-Invariant}
use azldev.Spec.Tree.Bodies.{BodyAt}
use azldev.Spec.Tree.Branches.{else_at}
use azldev.Spec.Tree.Ranges.{between, between-append, between-cons, Whole, line_of-branch}

pub serialize_all-flush_text :
    (buffer : List Text) (blocks : Blocks)
    → serialize_all (flush_text buffer blocks) ≡ buffer ++ serialize_all blocks
unfolding serialize_all serialize_tree flush_text
serialize_all-flush_text [] blocks = refl
serialize_all-flush_text (line ∷ buffer) blocks = refl

serialize_all-split_preamble :
    (blocks : Blocks)
    → serialize_all (split_preamble blocks).0 ++ serialize_all (split_preamble blocks).1
      ≡ serialize_all blocks
unfolding serialize_all split_preamble
serialize_all-split_preamble nil = refl
serialize_all-split_preamble (cons block blocks) = elim (Bool-cases (is_section_or_wrapper block)) [
  | inl e ↦ ground arith
  | inr e ↦ ground (
    arith,
    serialize_all-split_preamble blocks,
    append_assoc (serialize_tree block) (serialize_all (split_preamble blocks).0)
        (serialize_all (split_preamble blocks).1),
  )
]

-- wrapPreamble keeps the lines of the children and their order.
pub serialize_all-wrap_preamble :
    (blocks : Blocks) → serialize_all (wrap_preamble blocks) ≡ serialize_all blocks
unfolding serialize_all serialize_tree wrap_preamble
serialize_all-wrap_preamble blocks = serialize_all-split_preamble blocks

pub regroup : (a b c d e : List Text) → (a ++ (b ++ (c ++ d))) ++ e ≡ (a ++ (b ++ c)) ++ (d ++ e)
regroup a b c d e = simp append_assoc

module _ (raw : List Text) (found : List ConditionalPair) (start : Run raw found 0 none [] []) where
  abbrev pub headers : List ℕ
  headers = find_section_header_lines raw

  -- The blocks that are built from a range, after a buffer, serialize to the buffer and the range.
  abbrev pub BuildKeepsLines : ℕ → Type 0
  BuildKeepsLines fuel =
      (top_level : Bool) (a end : ℕ) (buffer : List Text) (blocks : Blocks)
      → a ≤ end
      → Whole found a end
      → build_block_children raw found headers fuel top_level a end buffer ≡ ok blocks
      → serialize_all blocks ≡ buffer ++ between raw a end

  -- The branches that are built from the body of a conditional serialize to the lines of the body.
  abbrev pub BranchesKeepLines : ℕ → Type 0
  BranchesKeepLines fuel =
      (is_wrapper : Bool) (i a k : ℕ) (else_line : Option ℕ) (children else_blocks : Blocks)
      (directive : Text)
      → BodyAt raw found i a
      → pair_by_if found i ≡ some k
      → i < a
      → a ≤ k
      → else_line ≡ find_else_directive_line raw a k
      → build_conditional_branches raw found headers fuel is_wrapper a (or_end else_line k)
          else_line k
        ≡ ok (children, directive, else_blocks)
      → serialize_all children ++ (line_of directive ++ serialize_all else_blocks) ≡ between raw a k

  pub found-Invariant : Invariant (length raw) [] found
  found-Invariant = Run-Invariant raw found 0 none [] [] start start-Invariant

  pub paired_closes :
      (i k : ℕ) → pair_by_if found i ≡ some k → conditional_depth_change (line_at raw k) ≡ closes
  unfolding pair_by_if
  paired_closes i k paired = ground (arith, Run-closes raw found 0 none [] [] start i k paired)

  pub body_Whole : (i k a : ℕ) → pair_by_if found i ≡ some k → i < a → Whole found a k
  body_Whole i k a paired after j m low high h =
      found-Invariant.nested i k j m paired h (omega arith) (omega arith)

  pub branches_step :
      (fuel : ℕ) → BuildKeepsLines fuel → BranchesKeepLines fuel → BranchesKeepLines (suc fuel)
  unfolding build_conditional_branches serialize_all serialize_tree
  branches_step fuel build branches is_wrapper i a k none children else_blocks directive body paired
        after inside searched h =
      elim (Result-cases (build_block_children raw found headers fuel is_wrapper a k [])) [
        | inl (c, f) ↦ ground (
          arith,
          build is_wrapper a k [] c inside (body_Whole i k a paired after) f,
          append-nil (serialize_all c),
        )
        | inr (_, f) ↦ ground arith
      ]
  branches_step fuel build branches is_wrapper i a k (some e) children else_blocks directive body
        paired after inside searched h =
      let at = else_at raw found i a k e body paired inside (sym searched) in
      let directive' = line_at raw e in
      let next = find_else_directive_line raw (suc e) k in
      let range = between-append raw a e k at.from (omega (arith, at.before)) ∙ refl in
      elim (Result-cases (build_block_children raw found headers fuel is_wrapper a e [])) [
        | inr (_, f) ↦ ground arith
        | inl (c, f) ↦
            let first = build is_wrapper a e [] c at.from at.whole f in
            elim (Bool-cases (is_elif_directive directive')) [
              | inl elif ↦
                  elim (Result-cases (
                    build_conditional_branches raw found headers fuel is_wrapper (suc e)
                      (or_end next k) next k)) [
                        | inl ((then', directive'', else'), g) ↦ ground (
                          arith,
                          first,
                          range,
                          between-cons raw e k at.before,
                          branches is_wrapper i (suc e) k next then' else' directive'' at.rest
                              paired (omega (arith, at.from)) (omega (arith, at.before)) refl g,
                          append-nil (serialize_all else'),
                          append-nil (between raw (suc e) k),
                        )
                        | inr (_, g) ↦ ground arith
                      ]
              | inr terminal ↦
                  elim (Result-cases
                    (build_block_children raw found headers fuel is_wrapper (suc e) k [])) [
                      | inl (rest, g) ↦ ground (
                        arith,
                        first,
                        range,
                        between-cons raw e k at.before,
                        line_of-branch directive' at.branch,
                        build is_wrapper (suc e) k [] rest (omega (arith, at.before))
                            (body_Whole i k (suc e) paired (omega (arith, at.from))) g,
                      )
                      | inr (_, g) ↦ ground arith
                    ]
            ]
      ]
