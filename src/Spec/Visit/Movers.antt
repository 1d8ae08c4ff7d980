-- ===== src/Spec/Visit/Movers.antt =====
-- internal/rpm/spec/spec.go: a round of a visit whose visitor changes the spec at its line.
use azldev.Prelude.{ℕ, ◌≤◌, List, Option, some, none, Error, refl, arith}
use azldev.Prelude.{if◌then◌else◌, leb, Bool-cases, inl, inr, ◌⊎◌, subst, sym}
use azldev.Text.{Text}
use azldev.Spec.Parsed.{ParsedLine, section_start_line, tag_line, raw_line}
use azldev.Spec.Tree.Build.{line_at}
use azldev.Spec.Visit.{
  Context, Visitor, parse_current, end_section, start_section, at_line, visit_if_due, visit_parsed,
  visit_line,
}
use azldev.Spec.Visit.Moves.{
  Changes, Inserts, Inserts-Ready, Inserts-Stays, MayMove, Moves, Ready, Ready-CalledReady, Stays,
  Stays-Ready, Stays-trans, context_of, failed_of, variables_of,
}

module _ {S : Type 0} (k : ℕ) (Holds : Option Error → List Text → S → Type 0) (visitor : Visitor S)
    (moves : Moves k Holds visitor) where
  abbrev pub Round : Context → Option Error × Context × S → Type 0
  Round ctx (failed, ctx', s') = Holds failed ctx'.lines s' × Changes k ctx ctx'

  abbrev Called : Context → Option Error × Context × S → Type 0
  Called ctx (failed, ctx', s') =
      Holds failed ctx'.lines s'
      × (Stays ctx ctx'
          ⊎ ((ctx.next_line_to_visit ≤ ctx.current_line_num) × MayMove k ctx.target ctx ctx'))

  visit_if_due-Called :
      (ctx : Context) (s : S)
      → Ready ctx
      → Holds none ctx.lines s
      → Called ctx (visit_if_due visitor ctx s)
  unfolding visit_if_due
  visit_if_due-Called ctx s ready holds =
      elim (Bool-cases (leb ctx.next_line_to_visit ctx.current_line_num)) [
        | inr late ↦
            subst (λ b. Called ctx (if b then visitor ctx s else (none, ctx, s))) (sym late)
              (holds, inl (refl, refl, refl, refl))
        | inl due ↦
            subst (λ b. Called ctx (if b then visitor ctx s else (none, ctx, s))) (sym due)
              (
                moves.keeps ctx s (Ready-CalledReady ctx.target ctx ready) holds,
                inr (ground arith, moves.may_move ctx s),
              )
      ]

  line-Round :
      (text : Text) (parsed : ParsedLine) (ctx : Context) (s : S)
      → Ready ctx
      → Holds none ctx.lines s
      → Round ctx (visit_if_due visitor (at_line text parsed ctx) s)
  unfolding at_line
  line-Round text parsed ctx s ready holds =
      let (holds', moved) = visit_if_due-Called (at_line text parsed ctx) s ready holds in
      (
        holds',
        elim moved [
          | inl stays ↦ inl stays
          | inr (due, moved') ↦ elim (moved' ready) [
            | inl stays ↦ inl stays
            | inr change ↦ inr (due, change)
          ]
        ],
      )

  abbrev started : Text → Context → S → Context
  started text ctx s = context_of (visit_if_due visitor (start_section text ctx) s)

  -- The start of a section, in a context that was ready.
  start-Stays :
      (text : Text) (ctx : Context) (s : S)
      → Ready ctx
      → Holds none ctx.lines s
      → Holds
          (failed_of (visit_if_due visitor (start_section text ctx) s))
          (started text ctx s).lines
          (variables_of (visit_if_due visitor (start_section text ctx) s))
        × Stays ctx (started text ctx s)
  unfolding start_section
  start-Stays text ctx s ready holds =
      let (holds', moved) = visit_if_due-Called (start_section text ctx) s ready holds in
      (holds', elim moved [ inl stays ↦ stays | inr (due, stays) ↦ stays ])

  header-Round :
      (text : Text) (ended : Option Error) (ctx ctx1 : Context) (s1 : S)
      → Ready ctx
      → Holds ended ctx1.lines s1
      → Stays ctx ctx1
        ⊎ ((ctx.next_line_to_visit ≤ ctx.current_line_num) × (Stays ctx ctx1 ⊎ Inserts k ctx ctx1))
      → Round ctx (elim ended as (λ _. Option Error × Context × S) [
        | some e ↦ (some e, ctx1, s1)
        | none ↦ visit_if_due visitor (start_section text ctx1) s1
      ])
  header-Round text (some e) ctx ctx1 s1 ready holds moved = (
    holds,
    elim moved [
      | inl stays ↦ inl stays
      | inr (due, inl stays) ↦ inl stays
      | inr (due, inr change) ↦ inr (due, inl change)
    ],
  )
  header-Round text none ctx ctx1 s1 ready holds (inl stays) =
      let (holds', stays') = start-Stays text ctx1 s1 (Stays-Ready ctx ctx1 ready stays) holds in
      (holds', inl (Stays-trans ctx ctx1 (started text ctx1 s1) stays stays'))
  header-Round text none ctx ctx1 s1 ready holds (inr (due, inl stays)) =
      let (holds', stays') = start-Stays text ctx1 s1 (Stays-Ready ctx ctx1 ready stays) holds in
      (holds', inl (Stays-trans ctx ctx1 (started text ctx1 s1) stays stays'))
  header-Round text none ctx ctx1 s1 ready holds (inr (due, inr change)) =
      let (holds', stays') =
        start-Stays text ctx1 s1 (Inserts-Ready k ctx ctx1 ready change) holds in
      (holds', inr (due, inl (Inserts-Stays k ctx ctx1 (started text ctx1 s1) change stays')))

  visit_parsed-Round :
      (text : Text) (parsed : ParsedLine) (ctx : Context) (s : S)
      → Ready ctx
      → Holds none ctx.lines s
      → Round ctx (visit_parsed visitor text parsed ctx s)
  unfolding visit_parsed end_section
  visit_parsed-Round text (section_start_line kind name tokens) ctx s ready holds =
      let (ended, ctx1, s1) = visit_if_due visitor (end_section ctx) s in
      let (holds', moved) = visit_if_due-Called (end_section ctx) s ready holds in
      header-Round text ended ctx ctx1 s1 ready holds'
        (elim moved [ inl stays ↦ inl stays | inr (due, moved') ↦ inr (due, moved' ready) ])
  visit_parsed-Round text (tag_line tag value) ctx s ready holds =
      line-Round text (tag_line tag value) ctx s ready holds
  visit_parsed-Round text (raw_line content) ctx s ready holds =
      line-Round text (raw_line content) ctx s ready holds

  pub visit_line-Round :
      (ctx : Context) (s : S)
      → Ready ctx
      → Holds none ctx.lines s
      → Round ctx (visit_line visitor ctx s)
  unfolding visit_line parse_current
  visit_line-Round ctx s ready holds =
      let (parsed, ctx') = parse_current ctx in
      visit_parsed-Round (line_at ctx.lines ctx.current_line_num) parsed ctx' s ready holds
