-- ===== src/Spec/Tree/Fuel.antt =====
-- internal/rpm/spec/tree.go: the errors of parseMacroDefBlock, and the fuel of
-- buildConditionalBranches.
use azldev.Prelude.{ℕ, suc, zero, ◌+◌, ◌-◌, ◌*◌, ◌≤◌, ◌<◌, List, [], Bool, false, ◌≡◌, refl, arith}
use azldev.Prelude.{Option, some, none, err, inl, inr, sym, ◌≢◌, new, Error, wrap, join, ap}
use azldev.Prelude.{Result-cases, Bool-cases}
use azldev.Text.{Text, codes, ◌==◌}
use azldev.Spec.Lines.{is_elif_directive}
use azldev.Spec.Macro.{MacroState, macro_body_state_after, new_macro}
use azldev.Spec.Tree.Pairs.{ConditionalPair, pair_by_if}
use azldev.Spec.Tree.Build.{
  line_at, find_else_directive_line, parse_macro_def_block, macro_lines_from, or_end,
  build_block_children, build_conditional_branches, out_of_fuel,
}
use azldev.Spec.Tree.Runs.{Run}
use azldev.Spec.Tree.Collected.{pair-cases}
use azldev.Spec.Tree.Bodies.{BodyAt}
use azldev.Spec.Tree.Branches.{else_at}
use azldev.Spec.Tree.Ranges.{Whole}
use azldev.Spec.Tree.Kept.{headers, body_Whole}

abbrev pub unterminated : Error
unterminated = new "unterminated macro construct at line %d"

abbrev pub no_match : Error
no_match = new "%%if at line %d has no matching pair"

-- Errors are told apart by their texts.
is_fuel : Error → Bool
is_fuel (new message) = codes message == codes "out of fuel"
is_fuel (wrap message e) = false
is_fuel (join e e') = false

pub unterminated_ne : unterminated ≢ out_of_fuel
unfolding is_fuel ◌==◌
unterminated_ne = λ h. ground (arith, ap is_fuel h)

pub no_match_ne : no_match ≢ out_of_fuel
unfolding is_fuel ◌==◌
no_match_ne = λ h. ground (arith, ap is_fuel h)

macro_lines_from-eq_err :
    (raw : List Text) (rounds a : ℕ) (state : MacroState) (e : Error)
    → macro_lines_from raw rounds a state ≡ err e
    → e ≡ unterminated
unfolding macro_lines_from
macro_lines_from-eq_err raw zero a state e h = ground arith
macro_lines_from-eq_err raw (suc rounds) a state e h =
    let (state', continues, f) = pair-cases (macro_body_state_after (line_at raw a) state) in
    elim (Result-cases (macro_lines_from raw rounds (suc a) state')) [
      | inl (_, g) ↦ ground arith
      | inr (e', g) ↦ ground (arith, macro_lines_from-eq_err raw rounds (suc a) state' e' g)
    ]

pub parse_macro_def_block-eq_err :
    (raw : List Text) (start end : ℕ) (name : Text) (e : Error)
    → parse_macro_def_block raw start end name ≡ err e
    → e ≡ unterminated
unfolding parse_macro_def_block
parse_macro_def_block-eq_err raw start end name e h =
    let (state, continues, f) = pair-cases (macro_body_state_after (line_at raw start) new_macro) in
    elim (Result-cases (macro_lines_from raw (end - suc start) (suc start) state)) [
      | inl (_, g) ↦ ground arith
      | inr (e', g) ↦
          ground (arith, macro_lines_from-eq_err raw (end - suc start) (suc start) state e' g)
    ]

module _ (raw : List Text) (found : List ConditionalPair) (start : Run raw found 0 none [] []) where
  -- Fuel of two units for each line of the range, and one, is enough.
  abbrev pub BuildInTime : ℕ → Type 0
  BuildInTime fuel =
      (top_level : Bool) (a end : ℕ) (buffer : List Text)
      → a ≤ end
      → Whole found a end
      → 2 * (end - a) + 1 ≤ fuel
      → build_block_children raw found (headers raw found start) fuel top_level a end buffer
        ≢ err out_of_fuel

  abbrev pub BranchesInTime : ℕ → Type 0
  BranchesInTime fuel =
      (is_wrapper : Bool) (i a k : ℕ) (else_line : Option ℕ)
      → BodyAt raw found i a
      → pair_by_if found i ≡ some k
      → i < a
      → a ≤ k
      → else_line ≡ find_else_directive_line raw a k
      → 2 * (k - a) + 2 ≤ fuel
      → build_conditional_branches raw found (headers raw found start) fuel is_wrapper a
          (or_end else_line k) else_line k
        ≢ err out_of_fuel

  pub branches_in_time :
      (fuel : ℕ) → BuildInTime fuel → BranchesInTime fuel → BranchesInTime (suc fuel)
  unfolding build_conditional_branches
  branches_in_time fuel build branches is_wrapper i a k none body paired after inside searched
        enough h =
      elim (Result-cases
        (build_block_children raw found (headers raw found start) fuel is_wrapper a k [])) [
          | inl (c, f) ↦ ground arith
          | inr (e, f) ↦ ground (
            arith,
            build is_wrapper a k [] inside (body_Whole raw found start i k a paired after)
                (omega (arith, enough)),
          )
        ]
  branches_in_time fuel build branches is_wrapper i a k (some e) body paired after inside searched
        enough h =
      let at = else_at raw found i a k e body paired inside (sym searched) in
      let next = find_else_directive_line raw (suc e) k in
      elim (Result-cases
        (build_block_children raw found (headers raw found start) fuel is_wrapper a e [])) [
          | inr (_, f) ↦ ground (
            arith,
            build is_wrapper a e [] at.from at.whole (omega (arith, enough, at.before, at.from)),
          )
          | inl (c, f) ↦ elim (Bool-cases (is_elif_directive (line_at raw e))) [
            | inl elif ↦
                elim (Result-cases (
                  build_conditional_branches raw found (headers raw found start) fuel is_wrapper
                    (suc e) (or_end next k) next k)) [
                      | inl (_, g) ↦ ground arith
                      | inr (_, g) ↦ ground (
                        arith,
                        branches is_wrapper i (suc e) k next at.rest paired (omega (arith, at.from))
                            (omega (arith, at.before)) refl
                            (omega (arith, enough, at.before, at.from)),
                      )
                    ]
            | inr terminal ↦
                elim (Result-cases (
                  build_block_children raw found (headers raw found start) fuel is_wrapper (suc e) k
                    [])) [
                      | inl (_, g) ↦ ground arith
                      | inr (_, g) ↦ ground (
                        arith,
                        build is_wrapper (suc e) k [] (omega (arith, at.before))
                            (body_Whole raw found start i k (suc e) paired (omega (arith, at.from)))
                            (omega (arith, enough, at.before, at.from)),
                      )
                    ]
          ]
        ]
