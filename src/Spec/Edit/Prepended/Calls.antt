-- ===== src/Spec/Edit/Prepended/Calls.antt =====
-- internal/rpm/spec/edit.go: the calls of the visitor of PrependLinesToSection.
use azldev.Prelude.{suc, ◌+◌, ◌≤◌, List, [], Bool, true, false, ◌&&◌, Option, some, none, Error}
use azldev.Prelude.{◌≡◌, refl, arith, leb, length, inl, inr, ◌⊎◌, subst, sym, ap}
use azldev.Prelude.{if◌then◌else◌}
use azldev.Text.{Text, ◌==◌, eq_iff}
use azldev.Spec.Parsed.{
  new_parse_state, ParsedLine, section_start_line, tag_line, raw_line, parse_spec_line,
}
use azldev.Spec.Tree.Build.{line_at}
use azldev.Spec.Visit.{
  Context, Visitor, parse_current, end_section, start_section, at_line, insert_lines_before,
  visit_if_due, visit_parsed, visit_line, insert_lines_at, insert_lines_after,
}
use azldev.Spec.Visit.{initial_context}
use azldev.Spec.Visit.Quiet.{visit_if_due-quiet, first}
use azldev.Spec.Visit.Moves.{Stays}
use azldev.Spec.Edit.Prepended.Headers.{is_header, starts_section}
use azldev.Spec.Edit.{in_section, prepend_visitor}

module _ (inserted : List Text) where
  -- The lines were inserted after the current one.
  abbrev pub Follows : Context → Context → Type 0
  Follows ctx ctx' =
      (ctx'.current_line_num ≡ ctx.current_line_num)
      × (ctx'.next_line_to_parse ≡ suc ctx.current_line_num)
      × (ctx'.next_line_to_visit ≡ ctx.next_line_to_visit + length inserted)
      × (ctx'.lines ≡ insert_lines_at ctx.lines inserted (suc ctx.current_line_num))

  -- What a call or a round does.
  abbrev pub Calls : Bool → Context → Bool → Option Error × Context × Bool → Type 0
  Calls may_insert ctx s (failed, ctx', s') =
      (failed ≡ none)
      × ((Stays ctx ctx' × (s' ≡ s))
          ⊎ ((may_insert ≡ true)
              × (ctx.next_line_to_visit ≤ ctx.current_line_num)
              × Follows ctx ctx'
              × (s' ≡ true)))

module _ (section_name package_name : Text) (inserted : List Text) where
  abbrev pub visitor : Visitor Bool
  visitor = prepend_visitor section_name package_name inserted

  -- A call at the start of a section, by the tests that it makes.
  abbrev pub choice : Context → Context → Bool → Bool → Bool → Bool → Option Error × Context × Bool
  choice before after s due here is_preamble =
      if due
      then if here
        then (none, (if is_preamble then before else insert_lines_after inserted after), true)
        else (none, after, s)
      else (none, after, s)

  choice-Calls :
      (before ctx : Context) (s due here is_preamble : Bool)
      → (due ≡ true → ctx.next_line_to_visit ≤ ctx.current_line_num)
      → (here ≡ true → is_preamble ≡ false)
      → Calls inserted true ctx s (choice before ctx s due here is_preamble)
  unfolding insert_lines_after
  choice-Calls before ctx s false here is_preamble is_due named =
      (refl, inl ((refl, refl, refl, refl), refl))
  choice-Calls before ctx s true false is_preamble is_due named =
      (refl, inl ((refl, refl, refl, refl), refl))
  choice-Calls before ctx s true true true is_due named = absurd (ground (arith, named refl))
  choice-Calls before ctx s true true false is_due named = (
    refl,
    inr (
      refl,
      is_due refl,
      (refl, omega arith, refl, ap (insert_lines_at ctx.lines inserted) (omega arith)),
      refl,
    ),
  )

  -- The start of a section, which is not the preamble.
  start-Calls :
      (text : Text) (ctx : Context) (s : Bool)
      → (section_name == []) ≡ false
      → Calls inserted true ctx s (visit_if_due visitor (start_section text ctx) s)
  unfolding visit_if_due start_section prepend_visitor
  start-Calls text ctx s named =
      let ctx1 = start_section text ctx in
      choice-Calls (insert_lines_before inserted ctx1) ctx1 s
        (leb ctx.next_line_to_visit ctx.current_line_num)
        (in_section section_name package_name ctx.parse_state)
        ((ctx.parse_state.sect_name == []) && (ctx.parse_state.package_name == []))
        (λ e. ground arith)
        (λ e. ground (arith, eq_iff ctx.parse_state.sect_name section_name, named, e))

  quiet-Calls :
      (may_insert : Bool) (ctx : Context) (s : Bool) (out : Option Error × Context × Bool)
      → out ≡ (none, ctx, s)
      → Calls inserted may_insert ctx s out
  quiet-Calls may_insert ctx s out e =
      subst (Calls inserted may_insert ctx s) (sym e) (refl, inl ((refl, refl, refl, refl), refl))

  line-Calls :
      (may_insert : Bool) (text : Text) (parsed : ParsedLine) (ctx : Context) (s : Bool)
      → Calls inserted may_insert ctx s (visit_if_due visitor (at_line text parsed ctx) s)
  unfolding at_line prepend_visitor
  line-Calls may_insert text parsed ctx s =
      subst (Calls inserted may_insert ctx s)
        (sym (visit_if_due-quiet visitor (at_line text parsed ctx) s refl))
        (refl, inl ((refl, refl, refl, refl), refl))

  abbrev pub then_started : Text → Option Error × Context × Bool → Option Error × Context × Bool
  then_started text (ended, ctx, s) = elim ended [
    | some e ↦ (some e, ctx, s)
    | none ↦ visit_if_due visitor (start_section text ctx) s
  ]

  visit_parsed-Calls :
      (text : Text) (parsed : ParsedLine) (ctx : Context) (s : Bool)
      → (section_name == []) ≡ false
      → Calls inserted (is_header parsed) ctx s (visit_parsed visitor text parsed ctx s)
  unfolding visit_parsed end_section prepend_visitor
  visit_parsed-Calls text (section_start_line kind name tokens) ctx s named =
      subst (λ out. Calls inserted true ctx s (then_started text out))
        (sym (visit_if_due-quiet visitor (end_section ctx) s refl))
        (start-Calls text (end_section ctx) s named)
  visit_parsed-Calls text (tag_line tag value) ctx s named =
      line-Calls false text (tag_line tag value) ctx s
  visit_parsed-Calls text (raw_line content) ctx s named =
      line-Calls false text (raw_line content) ctx s

  pub visit_line-Calls :
      (ctx : Context) (s : Bool)
      → (section_name == []) ≡ false
      → Calls inserted
          (starts_section (line_at ctx.lines ctx.current_line_num) ctx.parse_state)
          ctx
          s
          (visit_line visitor ctx s)
  unfolding visit_line parse_current parse_spec_line
  visit_line-Calls ctx s named =
      let (parsed, ctx') = parse_current ctx in
      visit_parsed-Calls (line_at ctx.lines ctx.current_line_num) parsed ctx' s named

  -- The section is not the preamble, at whose start nothing is done.
  pub prepend_visitor-quiet :
      (spec : List Text)
      → (section_name == []) ≡ false
      → (visitor (initial_context spec) false ≡ (none, initial_context spec, false))
        × (visitor (first visitor spec) false ≡ (none, first visitor spec, false))
  unfolding prepend_visitor initial_context ◌==◌ insert_lines_before
  prepend_visitor-quiet spec named =
      let elsewhere : in_section section_name package_name new_parse_state ≡ false =
        ground (arith, eq_iff [] section_name, eq_iff section_name [], named) in
      let preamble = first visitor spec in
      (
        refl,
        ap (λ here. choice (insert_lines_before inserted preamble) preamble false true here true)
            elsewhere,
      )
