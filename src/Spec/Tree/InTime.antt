-- ===== src/Spec/Tree/InTime.antt =====
-- internal/rpm/spec/tree.go: the second pass of parseTree and its fuel.
use azldev.Prelude.{
  ℕ, suc, zero, ◌+◌, ◌-◌, ◌*◌, ◌≤◌, ◌<◌, List, [], ◌∷◌, ◌++◌, Bool, true, false, ◌≡◌, refl, arith,
}
use azldev.Prelude.{
  none, Result, ok, err, inl, inr, length, ltb, ◌&&◌, ◌≢◌, new, Error, wrap, join, ap,
}
use azldev.Prelude.{Option-cases, Result-cases, Bool-cases}
use azldev.Text.{Text, codes, ◌==◌}
use azldev.Spec.Lines.{opens, conditional_depth_change, is_macro_def_line}
use azldev.Spec.Tree
use azldev.Spec.Tree.Shape.{Block}
use azldev.Spec.Tree.Pairs.{
  ConditionalPair, pair_by_if, is_header, collect_tree_conditional_pairs, find_section_header_lines,
  has_section_header_in_range,
}
use azldev.Spec.Tree.Build.{
  line_at, find_else_directive_line, find_tree_section_end, parse_macro_def_block, or_end,
  build_block_children, build_conditional_branches, out_of_fuel,
}
use azldev.Spec.Tree.Nesting.{start-Invariant}
use azldev.Spec.Tree.Runs.{Run}
use azldev.Spec.Tree.Collected.{depth-cases, Run-from_start}
use azldev.Spec.Tree.Bodies.{body_at}
use azldev.Spec.Tree.Ranges.{Whole, find_tree_section_end-Whole, parse_macro_def_block-eq_ok}
use azldev.Spec.Tree.Kept.{headers, found-Invariant}
use azldev.Spec.Tree.Fuel.{
  unterminated_ne, no_match_ne, parse_macro_def_block-eq_err, BuildInTime, BranchesInTime,
  branches_in_time,
}

module _ (raw : List Text) (found : List ConditionalPair) (start : Run raw found 0 none [] []) where
  section_in_time :
      (fuel : ℕ)
      → BuildInTime raw found start fuel
      → (top_level : Bool) (a end : ℕ) (buffer : List Text) → a < end
      → Whole found a end
      → 2 * (end - a) + 1 ≤ suc fuel
      → (top_level && is_header (headers raw found start) a) ≡ true
      → build_block_children raw found (headers raw found start) (suc fuel) top_level a end buffer
        ≢ err out_of_fuel
  unfolding build_block_children
  section_in_time fuel build top_level a end buffer below whole enough header h =
      let s = find_tree_section_end found (headers raw found start) (suc a) end in
      let (low, high, section_whole) =
        find_tree_section_end-Whole (length raw) found (headers raw found start)
          (found-Invariant raw found start) (suc a) end below
          (λ i k low' high' e. whole i k (omega (arith, low')) high' e) in
      elim (Result-cases
        (build_block_children raw found (headers raw found start) fuel false (suc a) s [])) [
          | inr (_, f) ↦
              ground (
                arith,
                build false (suc a) s [] low section_whole (omega (arith, enough, low, high)),
              )
          | inl (children, f) ↦
              elim (Result-cases (
                build_block_children raw found (headers raw found start) fuel top_level s end [])) [
                  | inl (_, g) ↦ ground arith
                  | inr (_, g) ↦ ground (
                    arith,
                    build top_level s end [] high
                        (λ i k low' high' e. whole i k (omega (arith, low, low')) high' e)
                        (omega (arith, enough, low, high)),
                  )
                ]
        ]

  plain_in_time :
      (fuel : ℕ)
      → BuildInTime raw found start fuel
      → (top_level : Bool) (a end : ℕ) (buffer : List Text) → a < end
      → Whole found a end
      → 2 * (end - a) + 1 ≤ suc fuel
      → conditional_depth_change (line_at raw a) ≢ opens
      → (top_level && is_header (headers raw found start) a) ≡ false
      → build_block_children raw found (headers raw found start) (suc fuel) top_level a end buffer
        ≢ err out_of_fuel
  unfolding build_block_children
  plain_in_time fuel build top_level a end buffer below whole enough other plain h =
      elim (Option-cases (is_macro_def_line (line_at raw a))) [
        | inl ordinary ↦ ground (
          arith,
          build top_level (suc a) end (buffer ++ (line_at raw a ∷ [])) below
              (λ i k low' high' e. whole i k (omega (arith, low')) high' e) (omega (arith, enough)),
        )
        | inr (name, defines) ↦ elim (Result-cases (parse_macro_def_block raw a end name)) [
          | inr (e, f) ↦
              ground (arith, parse_macro_def_block-eq_err raw a end name e f, unterminated_ne)
          | inl ((block, next), f) ↦
              let (low, high, taken) =
                parse_macro_def_block-eq_ok raw a end name block next below f in
              elim (Result-cases (
                build_block_children raw found (headers raw found start) fuel top_level next end
                  [])) [
                    | inl (_, g) ↦ ground arith
                    | inr (_, g) ↦ ground (
                      arith,
                      build top_level next end [] high
                          (λ i k low' high' e. whole i k (omega (arith, low, low')) high' e)
                          (omega (arith, enough, low, high)),
                    )
                  ]
        ]
      ]

  conditional_in_time :
      (fuel : ℕ)
      → BuildInTime raw found start fuel
      → BranchesInTime raw found start fuel
      → (top_level : Bool) (a end : ℕ) (buffer : List Text) → a < end
      → Whole found a end
      → 2 * (end - a) + 1 ≤ suc fuel
      → conditional_depth_change (line_at raw a) ≡ opens
      → (top_level && is_header (headers raw found start) a) ≡ false
      → build_block_children raw found (headers raw found start) (suc fuel) top_level a end buffer
        ≢ err out_of_fuel
  unfolding build_block_children
  conditional_in_time fuel build branches top_level a end buffer below whole enough cond plain h =
      elim (Option-cases (pair_by_if found a)) [
        | inl unpaired ↦ ground (arith, no_match_ne)
        | inr (k, paired) ↦
            let else_line = find_else_directive_line raw (suc a) k in
            let is_wrapper = has_section_header_in_range (suc a) k (headers raw found start) in
            let (order, bound) = (found-Invariant raw found start).paired_below a k paired in
            let ends = whole a k (omega arith) below paired in
            elim (Result-cases (
              build_conditional_branches raw found (headers raw found start) fuel is_wrapper (suc a)
                (or_end else_line k) else_line k)) [
                  | inr (_, f) ↦ ground (
                    arith,
                    branches is_wrapper a (suc a) k else_line
                        (body_at raw found 0 none [] [] start start-Invariant a k (omega arith)
                          paired)
                        paired (omega arith) order refl (omega (arith, enough, ends, order)),
                  )
                  | inl (_, f) ↦
                      elim (Result-cases (
                        build_block_children raw found (headers raw found start) fuel top_level
                          (suc k) end [])) [
                            | inl (_, g) ↦ ground arith
                            | inr (_, g) ↦ ground (
                              arith,
                              build top_level (suc k) end [] ends
                                  (λ i m low high e. whole i m (omega (arith, low, order)) high e)
                                  (omega (arith, enough, ends, order)),
                            )
                          ]
                ]
      ]

  build_in_time :
      (fuel : ℕ)
      → BuildInTime raw found start fuel
      → BranchesInTime raw found start fuel
      → BuildInTime raw found start (suc fuel)
  unfolding build_block_children
  build_in_time fuel build branches top_level a end buffer inside whole enough h =
      elim (Bool-cases (ltb a end)) [
        | inr past ↦ ground arith
        | inl more ↦ elim (Bool-cases (top_level && is_header (headers raw found start) a)) [
          | inl header ↦
              section_in_time fuel build top_level a end buffer (ground arith) whole enough header h
          | inr plain ↦ elim (depth-cases (conditional_depth_change (line_at raw a))) [
            | inl cond ↦
                conditional_in_time fuel build branches top_level a end buffer (ground arith) whole
                  enough cond plain h
            | inr other ↦
                plain_in_time fuel build top_level a end buffer (ground arith) whole enough
                  (ground arith) plain h
          ]
        ]
      ]

  in_time : (fuel : ℕ) → BuildInTime raw found start fuel × BranchesInTime raw found start fuel
  in_time zero = (
    λ top_level a end buffer inside whole enough. ground arith,
    λ is_wrapper i a k else_line body paired after inside searched enough. ground arith,
  )
  in_time (suc fuel) =
      let (build, branches) = in_time fuel in
      (build_in_time fuel build branches, branches_in_time raw found start fuel build branches)

-- Whether an error of parseTree comes from its second pass.
is_building : Result Block → Bool
is_building (ok tree) = false
is_building (err (new message)) = false
is_building (err (wrap message e)) = codes message == codes "building spec tree:\n%w"
is_building (err (join e e')) = false

is_building-first :
    (raw : List Text) (e : Error)
    → collect_tree_conditional_pairs raw ≡ err e
    → is_building (Tree.parse_tree raw) ≡ false
unfolding Tree.parse_tree is_building ◌==◌
is_building-first raw e f = rw f refl

-- The fuel that parseTree gives its second pass never runs out: the model's own error is no result.
pub parse_tree-build_ne :
    (raw_lines : List Text)
    → Tree.parse_tree raw_lines ≢ err (wrap "building spec tree:\n%w" out_of_fuel)
unfolding Tree.parse_tree is_building ◌==◌
parse_tree-build_ne raw h = elim (Result-cases (collect_tree_conditional_pairs raw)) [
  | inr (e, f) ↦ ground (arith, ap is_building h, is_building-first raw e f)
  | inl (pairs, f) ↦
      let start = Run-from_start raw pairs f in
      let inv = found-Invariant raw pairs start in
      elim (Result-cases (
        build_block_children raw pairs (find_section_header_lines raw) (2 * length raw + 1) true 0
          (length raw) [])) [
            | inl (_, g) ↦ ground arith
            | inr (e, g) ↦ ground (
              arith,
              (in_time raw pairs start (2 * length raw + 1)).0 true 0 (length raw) [] (omega arith)
                  (λ i k low high g. (inv.paired_below i k g).1) (omega arith),
            )
          ]
]
