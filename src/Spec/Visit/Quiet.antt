-- ===== src/Spec/Visit/Quiet.antt =====
-- internal/rpm/spec/spec.go: the steps of a visit whose visitor does not fail, and does nothing before
-- the first line.
use azldev.Prelude.{ℕ, suc, List, Bool, true, false, Option, some, none, Error, ◌≡◌}
use azldev.Prelude.{
  refl, ltb, leb, length, ap, ◌∙◌, Bool-cases, inl, inr, subst, sym, if◌then◌else◌,
}
use azldev.Text.{Text}
use azldev.Spec.Visit.{
  section_start, Context, Visitor, Visited, returned, out_of_fuel, initial_context, advance,
  visit_line, visit_lines, visit_end, visit_start, visit, visit_if_due,
}
use azldev.Spec.Visit.Moves.{failed_of, context_of, variables_of}

module _ {S : Type 0} (visitor : Visitor S) where
  abbrev after_round : ℕ → Option Error → Context → S → Visited S
  after_round fuel failed ctx s = elim failed [
    | some e ↦ returned (some e) ctx s
    | none ↦ visit_lines visitor fuel (advance ctx) s
  ]

  abbrev loop_choice : ℕ → Context → S → Bool → Visited S
  loop_choice fuel ctx s more = elim more [
    | false ↦ returned none ctx s
    | true ↦
        after_round fuel (failed_of (visit_line visitor ctx s))
          (context_of (visit_line visitor ctx s)) (variables_of (visit_line visitor ctx s))
  ]

  pub visit_lines-stop :
      (fuel : ℕ) (ctx : Context) (s : S)
      → ltb ctx.current_line_num (length ctx.lines) ≡ false
      → visit_lines visitor (suc fuel) ctx s ≡ returned none ctx s
  unfolding visit_lines
  visit_lines-stop fuel ctx s out = ap (loop_choice fuel ctx s) out

  pub visit_lines-next :
      (fuel : ℕ) (ctx : Context) (s : S)
      → ltb ctx.current_line_num (length ctx.lines) ≡ true
      → failed_of (visit_line visitor ctx s) ≡ none
      → visit_lines visitor (suc fuel) ctx s
        ≡ visit_lines visitor fuel
            (advance (context_of (visit_line visitor ctx s)))
            (variables_of (visit_line visitor ctx s))
  unfolding visit_lines
  visit_lines-next fuel ctx s more going =
      let (failed, ctx', s') = visit_line visitor ctx s in
      ap (loop_choice fuel ctx s) more ∙ ap (λ f. after_round fuel f ctx' s') going

  -- The context at the first line.
  abbrev pub first : List Text → Context
  first spec = record (initial_context spec) { target = section_start }

  -- The rest of a visit after its loop.
  abbrev pub finish : Visited S → Visited S
  finish out = elim out [
    | out_of_fuel ↦ out_of_fuel
    | returned (some e) ctx s ↦ returned (some e) ctx s
    | returned none ctx s ↦ visit_end visitor ctx s
  ]

  abbrev rest_of : ℕ → Option Error × Context × S → Visited S
  rest_of fuel (failed, ctx, s) = elim failed [
    | some e ↦ returned (some e) ctx s
    | none ↦ finish (visit_lines visitor fuel ctx s)
  ]

  abbrev then_start : Option Error × Context × S → Option Error × Context × S
  then_start (failed, ctx, s) = elim failed [
    | some e ↦ (some e, ctx, s)
    | none ↦ visitor (record ctx { target = section_start }) s
  ]

  pub visit-first :
      (fuel : ℕ) (spec : List Text) (s : S)
      → visitor (initial_context spec) s ≡ (none, initial_context spec, s)
      → visitor (first spec) s ≡ (none, first spec, s)
      → visit visitor fuel spec s ≡ finish (visit_lines visitor fuel (first spec) s)
  unfolding visit visit_start initial_context
  visit-first fuel spec s quiet quiet' =
      ap (λ out. rest_of fuel (then_start out)) quiet ∙ ap (rest_of fuel) quiet'

  pub visit_if_due-quiet :
      (ctx : Context) (s : S)
      → visitor ctx s ≡ (none, ctx, s)
      → visit_if_due visitor ctx s ≡ (none, ctx, s)
  unfolding visit_if_due
  visit_if_due-quiet ctx s quiet =
      elim (Bool-cases (leb ctx.next_line_to_visit ctx.current_line_num)) [
        | inl e ↦
            subst (λ b. (if b then visitor ctx s else (none, ctx, s)) ≡ (none, ctx, s)) (sym e)
              quiet
        | inr e ↦
            subst (λ b. (if b then visitor ctx s else (none, ctx, s)) ≡ (none, ctx, s)) (sym e) refl
      ]
