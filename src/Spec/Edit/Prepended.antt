-- ===== src/Spec/Edit/Prepended.antt =====
-- internal/rpm/spec/edit.go: PrependLinesToSection on a whole spec, for lines whose last one does not
-- start a section.
pub mod Headers
pub mod Calls
pub mod Inserting
pub mod Rounds
pub mod Endless
use azldev.Prelude.{
  ℕ, zero, suc, ◌+◌, ◌*◌, ◌<◌, List, [], ◌∷◌, ◌++◌, Bool, true, false, Option, some, none, Error,
}
use azldev.Prelude.{
  ◌≡◌, refl, arith, ltb, length, Bool-cases, inl, inr, subst, sym, ap, ◌∙◌, wrap, length-append,
}
use azldev.Prelude.{if◌then◌else◌, ◌&&◌, ◌⊎◌}
use azldev.Text.{Text, ◌==◌, eq_iff}
use azldev.Spec.Parsed.{
  SectionTarget, new_parse_state, ParsedLine, new_parsed_line, parse_logical_line, parse_content,
}
use azldev.Spec.Tree.Build.{line_at}
use azldev.Spec.Visit.{
  section_start, section_end, spec_end, Context, Visitor, Visited, returned, out_of_fuel,
  initial_context, advance, visit_line, visit_lines, visit_end, visit_start, visit,
  insert_lines_before, insert_lines_after, insert_lines_at,
}
use azldev.Spec.Visit.Quiet.{visit_lines-stop, visit_lines-next, first, finish, visit-first}
use azldev.Spec.Visit.Moves.{failed_of, context_of, variables_of, Stays, Ready}
use azldev.Spec.Edit.{
  section_not_found, visit_fuel, if_updated, in_section, prepend_visitor, prepend_lines_to_section,
}
use azldev.Spec.Edit.Appended.{Outcome, Appended, Copies, inserted-Appended, if_updated-Outcome}
use azldev.Spec.Edit.Prepended.Headers.{starts_section, starts_section-any}
use azldev.Spec.Edit.Prepended.Calls.{visit_line-Calls, prepend_visitor-quiet}
use azldev.Spec.Edit.Prepended.Rounds.{
  inserted, Left, rounds, Advanced, Stays-Advanced, Follows-Advanced,
}

module _ (section_name package_name : Text) (before : List Text) (last : Text) (spec : List Text)
    (named : (section_name == []) ≡ false)
    (harmless : starts_section last new_parse_state ≡ false) where
  abbrev lines : List Text
  lines = inserted before last

  abbrev visitor : Visitor Bool
  visitor = prepend_visitor section_name package_name lines

  abbrev Holds : Option Error → List Text → Bool → Type 0
  Holds = Copies section_name package_name lines spec

  abbrev Returns : Visited Bool → Type 0
  Returns out = (ctx : Context) × (s : Bool) × (out ≡ returned none ctx s) × Holds none ctx.lines s

  -- What a round keeps.
  abbrev Rounded : ℕ → ℕ → Bool → Option Error × Context × Bool → Type 0
  Rounded r d pending (failed, ctx, s) =
      (failed ≡ none) × Holds none ctx.lines s × Advanced before last r d pending ctx

  round-Rounded :
      (r d : ℕ) (pending : Bool) (ctx : Context) (s : Bool)
      → Ready ctx
      → Left before last ctx r d pending
      → Holds none ctx.lines s
      → Rounded r d pending (visit_line visitor ctx s)
  round-Rounded r d pending ctx s ready left holds =
      let (failed, ctx', s') = visit_line visitor ctx s in
      let (going, called) = visit_line-Calls section_name package_name lines ctx s named in
      elim called [
        | inl ((c, p, v, l), same) ↦ (
          going,
          subst (λ ls. Holds none ls s') (sym l) (subst (Holds none ctx.lines) (sym same) holds),
          Stays-Advanced before last r d pending ctx ctx' ready left (c, p, v, l),
        )
        | inr (header, due, (c, p, v, l), updated) ↦ (
          going,
          subst (λ ls. Holds none ls s') (sym l)
              (subst (Holds none (insert_lines_at ctx.lines lines (suc ctx.current_line_num)))
                (sym updated)
                (inserted-Appended section_name package_name lines spec ctx.lines
                  (suc ctx.current_line_num) s holds)),
          Follows-Advanced before last
              (λ state. starts_section-any last state new_parse_state ∙ harmless) r d pending ctx
              ctx' ready left header due (c, p, v, l),
        )
      ]

  visit_lines-Returns :
      (fuel r d : ℕ) (pending : Bool) (ctx : Context) (s : Bool)
      → Left before last ctx r d pending
      → rounds before last r d pending < fuel
      → Holds none ctx.lines s
      → Returns (visit_lines visitor fuel ctx s)
  unfolding visit_lines advance
  visit_lines-Returns zero r d pending ctx s left enough holds = absurd (ground arith)
  visit_lines-Returns (suc fuel) r d pending ctx s left enough holds =
      elim (Bool-cases (ltb ctx.current_line_num (length ctx.lines))) [
        | inr out ↦
            subst Returns (sym (visit_lines-stop visitor fuel ctx s out)) (ctx, s, refl, holds)
        | inl more ↦
            let (failed, ctx', s') = visit_line visitor ctx s in
            let (going, holds', next) = round-Rounded r d pending ctx s (ground arith) left holds in
            subst Returns (sym (visit_lines-next visitor fuel ctx s more going)) (
              visit_lines-Returns fuel next.r' next.d' next.pending' (advance ctx') s' next.left
                (omega (arith, next.fewer, enough)) holds')
      ]

  visit_end-Returns :
      (ctx : Context) (s : Bool) → Holds none ctx.lines s → Returns (visit_end visitor ctx s)
  unfolding visit_end prepend_visitor
  visit_end-Returns ctx s holds = (_, s, refl, holds)

  visit-Returns :
      (fuel : ℕ)
      → length spec * (length before + 3) < fuel
      → Returns (visit visitor fuel spec false)
  unfolding initial_context
  visit-Returns fuel enough =
      let (start, preamble) = prepend_visitor-quiet section_name package_name lines spec named in
      let (ctx, s, e, holds) =
        visit_lines-Returns fuel (length spec) 0 false (first visitor spec) false
          (refl, omega arith, omega arith, omega arith) (omega (arith, enough)) (refl, refl) in
      subst Returns
        (sym (visit-first visitor fuel spec false start preamble ∙ ap (finish visitor) e))
        (visit_end-Returns ctx s holds)

  -- PrependLinesToSection ends for every spec, with a section that is given and with lines of which
  -- the last one starts no section: with an error and the spec as it was, or without one, and then the
  -- lines of the spec and the lines to prepend stand in the result, in their order, and it is longer by
  -- one or more times the number of the latter.
  pub prepend_lines_to_section-Outcome :
      Outcome
        (Appended spec lines)
        spec
        (prepend_lines_to_section section_name package_name lines spec)
  unfolding prepend_lines_to_section visit_fuel
  prepend_lines_to_section-Outcome =
      let not_found = wrap "section %#q (package=%#q) not found:\n%w" section_not_found in
      let (ctx, updated, e, holds) = visit-Returns (visit_fuel (length spec) (length lines)) (
        subst (λ n. length spec * (length before + 3) < suc (length spec) * (n + 3) + 1)
          (sym (length-append before (last ∷ []))) (omega arith)) in
      subst (λ out. Outcome (Appended spec lines) spec (if_updated not_found out)) (sym e)
        (if_updated-Outcome (Appended spec lines) spec not_found none ctx updated holds)
