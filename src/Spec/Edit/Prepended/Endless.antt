-- ===== src/Spec/Edit/Prepended/Endless.antt =====
-- internal/rpm/spec/edit.go: PrependLinesToSection of lines whose last one is a header of the section.
use azldev.Prelude.{ℕ, zero, suc, ◌+◌, ◌≤◌, ◌<◌, List, [], ◌∷◌, Bool, false, Option, none, Error}
use azldev.Prelude.{◌≡◌, refl, arith, ltb, length, Bool-cases, inl, inr, subst, sym, ap, ◌∙◌}
use azldev.Prelude.{length-append}
use azldev.Text.{Text, ◌==◌}
use azldev.Spec.Tree.Build.{line_at}
use azldev.Spec.Visit.{
  Context, Visitor, out_of_fuel, initial_context, advance, visit_line, visit_lines, visit,
}
use azldev.Spec.Visit.Quiet.{visit_lines-next, first, finish, visit-first}
use azldev.Spec.Visit.Moves.{Stays}
use azldev.Spec.Edit.{prepend_visitor}
use azldev.Spec.Edit.Calls.{length-insert_lines_at}
use azldev.Spec.Edit.Prepended.Headers.{Heads}
use azldev.Spec.Edit.Prepended.Inserting.{visit_line-Follows}
use azldev.Spec.Edit.Prepended.Calls.{Follows, prepend_visitor-quiet, visit_line-Calls}
use azldev.Spec.Edit.Prepended.Rounds.{inserted, line_at-insert_last}

module _ (section_name package_name : Text) (before : List Text) (last : Text)
    (named : (section_name == []) ≡ false) (last_heads : Heads section_name package_name last) where
  abbrev lines : List Text
  lines = inserted before last

  abbrev visitor : Visitor Bool
  visitor = prepend_visitor section_name package_name lines

  -- A header of the section is to be visited yet, at line m.
  abbrev Looms : Context → ℕ → Type 0
  Looms ctx m =
      (ctx.next_line_to_parse ≡ suc ctx.current_line_num)
      × (ctx.current_line_num ≤ m)
      × (ctx.next_line_to_visit ≤ m)
      × (m < length ctx.lines)
      × Heads section_name package_name (line_at ctx.lines m)

  abbrev GoesOn : Option Error × Context × Bool → Type 0
  GoesOn (failed, ctx, s) = (failed ≡ none) × (m : ℕ) × Looms (advance ctx) m

  Stays-Looms :
      (ctx ctx' : Context) (m : ℕ)
      → Looms ctx m
      → Stays ctx ctx'
      → ctx.current_line_num < m
      → Looms (advance ctx') m
  unfolding advance
  Stays-Looms ctx ctx' m (p, le, due, more, heads) (c', p', v', l') earlier = (
    ground arith,
    ground arith,
    ground arith,
    omega (arith, more, ap length l'),
    subst (λ ls. Heads section_name package_name (line_at ls m)) (sym l') heads,
  )

  Follows-Looms :
      (ctx ctx' : Context) (m : ℕ)
      → Looms ctx m
      → Follows lines ctx ctx'
      → ctx.next_line_to_visit ≤ ctx.current_line_num
      → Looms (advance ctx') (suc ctx.current_line_num + length before)
  unfolding advance
  Follows-Looms ctx ctx' m (p, le, due, more, heads) (c', p', v', l') now =
      let size : length lines ≡ length before + 1 =
        omega (arith, length-append before (last ∷ [])) in
      let place = suc ctx.current_line_num + length before in
      let at_last : line_at ctx'.lines place ≡ last =
        subst (λ ls. line_at ls place ≡ last) (sym l')
          (line_at-insert_last ctx.lines before last (suc ctx.current_line_num) place
            (omega (arith, le, more)) refl) in
      (
        ground arith,
        ground arith,
        ground arith,
        ground (
          arith,
          ap length l',
          length-insert_lines_at ctx.lines lines (suc ctx.current_line_num),
        ),
        subst (Heads section_name package_name) (sym at_last) last_heads,
      )

  called-GoesOn :
      (ctx : Context) (s : Bool) (m : ℕ)
      → Looms ctx m
      → ctx.current_line_num < m
      → GoesOn (visit_line visitor ctx s)
  called-GoesOn ctx s m looms earlier =
      let (failed, ctx', s') = visit_line visitor ctx s in
      let (going, called) = visit_line-Calls section_name package_name lines ctx s named in
      elim called [
        | inl (stays, same) ↦ (going, m, Stays-Looms ctx ctx' m looms stays earlier)
        | inr (header, now, follows, updated) ↦
            (going, _, Follows-Looms ctx ctx' m looms follows now)
      ]

  round-GoesOn :
      (ctx : Context) (s : Bool) (m : ℕ) → Looms ctx m → GoesOn (visit_line visitor ctx s)
  round-GoesOn ctx s m (p, le, due, more, heads) = elim (Bool-cases (ltb ctx.current_line_num m)) [
    | inl earlier ↦ called-GoesOn ctx s m (p, le, due, more, heads) (ground arith)
    | inr here ↦
        let same : m ≡ ctx.current_line_num = ground arith in
        let (failed, ctx', s') = visit_line visitor ctx s in
        let (going, follows) =
          visit_line-Follows section_name package_name lines ctx s named (ground arith)
            (subst (λ i. Heads section_name package_name (line_at ctx.lines i)) same heads) in
        (going, _, Follows-Looms ctx ctx' m (p, le, due, more, heads) follows (ground arith))
  ]

  visit_lines-endless :
      (fuel : ℕ) (ctx : Context) (s : Bool) (m : ℕ)
      → Looms ctx m
      → visit_lines visitor fuel ctx s ≡ out_of_fuel
  unfolding visit_lines
  visit_lines-endless zero ctx s m looms = refl
  visit_lines-endless (suc fuel) ctx s m (p, le, due, more, heads) =
      let (failed, ctx', s') = visit_line visitor ctx s in
      let (going, m', looms') = round-GoesOn ctx s m (p, le, due, more, heads) in
      visit_lines-next visitor fuel ctx s (ground arith) going
      ∙ visit_lines-endless fuel (advance ctx') s' m' looms'

  -- The visit of PrependLinesToSection does not end within any fuel, for a section that is given, if
  -- the last line to prepend is a header of the section, and so is a line of the spec.
  pub visit-prepend_visitor_endless :
      (spec : List Text) (m : ℕ)
      → m < length spec
      → Heads section_name package_name (line_at spec m)
      → (fuel : ℕ) → visit visitor fuel spec false ≡ out_of_fuel
  unfolding initial_context
  visit-prepend_visitor_endless spec m more heads fuel =
      let (start, preamble) = prepend_visitor-quiet section_name package_name lines spec named in
      visit-first visitor fuel spec false start preamble
      ∙ ap (finish visitor) (
          visit_lines-endless fuel (first visitor spec) false m
            (refl, omega arith, omega arith, more, heads))
