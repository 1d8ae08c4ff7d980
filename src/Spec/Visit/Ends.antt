-- ===== src/Spec/Visit/Ends.antt =====
-- internal/rpm/spec/spec.go: the ends of a visit whose visitor changes the spec at the line that it is
-- called on.
use azldev.Prelude.{
  ℕ, zero, suc, ◌<◌, List, Bool, true, false, Option, some, none, Error, ◌≡◌, refl, arith,
}
use azldev.Prelude.{ltb, length, Bool-cases, inl, inr, subst, sym, ap, ◌∙◌}
use azldev.Text.{Text}
use azldev.Spec.Visit.{
  section_start, section_end, spec_end, Context, Visitor, Visited, returned, out_of_fuel,
  initial_context, advance, visit_line, visit_lines, visit_end, visit_start, visit,
}
use azldev.Spec.Visit.Movers.{visit_line-Round}
use azldev.Spec.Visit.Moves.{failed_of, context_of, variables_of, Moves}
use azldev.Spec.Visit.Rounds.{Left, rounds, round-Advanced}

module _ {S : Type 0} (k : ℕ) (Holds : Option Error → List Text → S → Type 0) (visitor : Visitor S)
    (moves : Moves k Holds visitor) where
  -- A visit returns, and its property holds of the lines and the variables that it leaves.
  abbrev pub Returns : Visited S → Type 0
  Returns out =
      (failed : Option Error) × (ctx : Context) × (s : S) × (out ≡ returned failed ctx s)
      × Holds failed ctx.lines s

  abbrev after_round : ℕ → Option Error → Context → S → Visited S
  after_round fuel failed ctx s = elim failed [
    | some e ↦ returned (some e) ctx s
    | none ↦ visit_lines visitor fuel (advance ctx) s
  ]

  abbrev loop_choice : ℕ → Context → S → Bool → Visited S
  loop_choice fuel ctx s more = elim more [
    | false ↦ returned none ctx s
    | true ↦
        after_round fuel (failed_of (visit_line visitor ctx s))
          (context_of (visit_line visitor ctx s)) (variables_of (visit_line visitor ctx s))
  ]

  line-Returns :
      (fuel : ℕ) (failed : Option Error) (ctx : Context) (s : S)
      → Holds failed ctx.lines s
      → (Holds none ctx.lines s → Returns (visit_lines visitor fuel (advance ctx) s))
      → Returns (after_round fuel failed ctx s)
  line-Returns fuel (some e) ctx s holds rest = (some e, ctx, s, refl, holds)
  line-Returns fuel none ctx s holds rest = rest holds

  advance-Holds :
      (ctx : Context) (s : S) → Holds none ctx.lines s → Holds none (advance ctx).lines s
  unfolding advance
  advance-Holds ctx s holds = holds

  visit_lines-Returns :
      (fuel r d : ℕ) (ctx : Context) (s : S)
      → Left ctx r d
      → rounds k r d < fuel
      → Holds none ctx.lines s
      → Returns (visit_lines visitor fuel ctx s)
  unfolding visit_lines
  visit_lines-Returns zero r d ctx s left enough holds = ground arith
  visit_lines-Returns (suc fuel) r d ctx s left enough holds =
      elim (Bool-cases (ltb ctx.current_line_num (length ctx.lines))) [
        | inr out ↦
            subst Returns (ap (loop_choice fuel ctx s) (sym out)) (none, ctx, s, refl, holds)
        | inl more ↦
            let (holds', changes) =
              visit_line-Round k Holds visitor moves ctx s (ground arith) holds in
            let (failed, ctx', s') = visit_line visitor ctx s in
            let next = round-Advanced k r d ctx ctx' (ground arith) left changes in
            subst Returns (ap (loop_choice fuel ctx s) (sym more)) (
              line-Returns fuel failed ctx' s' holds' (λ going.
                visit_lines-Returns fuel next.r' next.d' (advance ctx') s' next.left
                  (omega (arith, next.fewer, enough)) (advance-Holds ctx' s' going)))
      ]

  end_choice :
      (failed : Option Error) (ctx : Context) (s : S)
      → Holds failed ctx.lines s
      → Returns (elim failed as (λ _. Visited S) [
        | some e ↦ returned (some e) ctx s
        | none ↦
            let (failed', ctx', s') =
              visitor (record ctx { target = spec_end; raw_line = none }) s in
            returned failed' ctx' s'
      ])
  end_choice (some e) ctx s holds = (some e, ctx, s, refl, holds)
  end_choice none ctx s holds =
      let ctx1 = record ctx { target = spec_end; raw_line = none } in
      let (failed, ctx', s') = visitor ctx1 s in
      (failed, ctx', s', refl, moves.keeps ctx1 s tt holds)

  visit_end-Returns :
      (ctx : Context) (s : S) → Holds none ctx.lines s → Returns (visit_end visitor ctx s)
  unfolding visit_end
  visit_end-Returns ctx s holds =
      let ctx1 = record ctx { target = section_end; raw_line = none } in
      let (failed, ctx', s') = visitor ctx1 s in
      end_choice failed ctx' s' (moves.keeps ctx1 s tt holds)

  abbrev after_loop : Option Error → Context → S → Visited S
  after_loop (some e) ctx s = returned (some e) ctx s
  after_loop none ctx s = visit_end visitor ctx s

  end-Returns :
      (failed : Option Error) (ctx : Context) (s : S)
      → Holds failed ctx.lines s
      → Returns (after_loop failed ctx s)
  end-Returns (some e) ctx s holds = (some e, ctx, s, refl, holds)
  end-Returns none ctx s holds = visit_end-Returns ctx s holds

  -- A context at the first line, before the loop.
  abbrev AtFirst : List Text → Context → Type 0
  AtFirst lines ctx =
      (ctx.current_line_num ≡ 0)
      × (ctx.next_line_to_parse ≡ 1)
      × (ctx.next_line_to_visit ≡ 0)
      × (ctx.lines ≡ lines)

  -- The rest of a visit, after the calls before the loop.
  abbrev rest_of : ℕ → Option Error × Context × S → Visited S
  rest_of fuel (failed, ctx, s) = elim failed [
    | some e ↦ returned (some e) ctx s
    | none ↦ elim (visit_lines visitor fuel ctx s) [
      | out_of_fuel ↦ out_of_fuel
      | returned (some e) ctx' s' ↦ returned (some e) ctx' s'
      | returned none ctx' s' ↦ visit_end visitor ctx' s'
    ]
  ]

  loop-Returns :
      (fuel : ℕ) (lines : List Text) (ctx : Context) (s : S)
      → rounds k (length lines) 0 < fuel
      → AtFirst lines ctx
      → Holds none ctx.lines s
      → Returns (rest_of fuel (none, ctx, s))
  loop-Returns fuel lines ctx s enough (c, p, v, l) holds =
      let (failed, ctx', s', e, holds') =
        visit_lines-Returns fuel (length lines) 0 ctx s
          (omega arith, omega arith, omega arith, omega (arith, v, ap length l)) enough holds in
      subst
        (λ out. Returns (elim out as (λ _. Visited S) [
          | out_of_fuel ↦ out_of_fuel
          | returned (some e) ctx' s' ↦ returned (some e) ctx' s'
          | returned none ctx' s' ↦ visit_end visitor ctx' s'
        ]))
        (sym e) (end-Returns failed ctx' s' holds')

  rest-Returns :
      (fuel : ℕ) (lines : List Text) (failed : Option Error) (ctx : Context) (s : S)
      → rounds k (length lines) 0 < fuel
      → AtFirst lines ctx
      → Holds failed ctx.lines s
      → Returns (rest_of fuel (failed, ctx, s))
  rest-Returns fuel lines (some e) ctx s enough first holds = (some e, ctx, s, refl, holds)
  rest-Returns fuel lines none ctx s enough first holds =
      loop-Returns fuel lines ctx s enough first holds

  abbrev then_start : Option Error × Context × S → Option Error × Context × S
  then_start (failed, ctx, s) = elim failed [
    | some e ↦ (some e, ctx, s)
    | none ↦ visitor (record ctx { target = section_start }) s
  ]

  started-Returns :
      (fuel : ℕ) (lines : List Text) (failed : Option Error) (ctx : Context) (s : S)
      → rounds k (length lines) 0 < fuel
      → AtFirst lines ctx
      → Holds failed ctx.lines s
      → Returns (rest_of fuel (then_start (failed, ctx, s)))
  started-Returns fuel lines (some e) ctx s enough first holds = (some e, ctx, s, refl, holds)
  started-Returns fuel lines none ctx s enough (c, p, v, l) holds =
      let ctx1 = record ctx { target = section_start } in
      let (failed, ctx', s') = visitor ctx1 s in
      let (c', p', v', l') = moves.may_move ctx1 s in
      rest-Returns fuel lines failed ctx' s' enough (c' ∙ c, p' ∙ p, v' ∙ v, l' ∙ l)
        (moves.keeps ctx1 s tt holds)

  -- A visit of this kind returns, for a fuel that covers its moves.
  pub visit-Returns :
      (fuel : ℕ) (lines : List Text) (s : S)
      → rounds k (length lines) 0 < fuel
      → Holds none lines s
      → Returns (visit visitor fuel lines s)
  unfolding visit visit_start initial_context
  visit-Returns fuel lines s enough holds =
      let ctx = initial_context lines in
      let (failed, ctx', s') = visitor ctx s in
      let (c, p, v, l) = moves.may_move ctx s in
      started-Returns fuel lines failed ctx' s' enough (c, p, v, l) (moves.keeps ctx s tt holds)
