-- ===== src/Spec/Visit/Walk/Passes.antt =====
-- internal/rpm/spec/spec.go: a whole visit against the pass over the lines.
use azldev.Prelude.{ℕ, zero, suc, ◌+◌, ◌*◌, ◌<◌, List, [], ◌∷◌, ◌++◌, true}
use azldev.Prelude.{Option, some, none, Error, ◌≡◌, refl, arith, ltb, length, subst, sym, ap, ◌∙◌}
use azldev.Prelude.{length-append}
use azldev.Text.{Text}
use azldev.Spec.Parsed.{
  SectionTarget, ParsedLine, section_start_line, tag_line, raw_line, new_parsed_line, state_after,
}
use azldev.Spec.Tree.Build.{line_at}
use azldev.Spec.Visit.{
  Context, Visitor, returned, initial_context, advance, visit_lines, visit_end, visit, visit_parsed,
  end_section, start_section, at_line, replace_current, remove_current, replace_line, remove_line,
}
use azldev.Spec.Visit.Quiet.{visit_lines-stop, visit-first, first, finish, visit_if_due-quiet}
use azldev.Spec.Visit.Walk.{
  Action, keep, replace, remove, fail, act_on, section_after, walk_action, walk_parsed, walk_from,
  walk, with_line,
}
use azldev.Spec.Visit.Walk.Runs.{
  line_at-after, replace_line-after, remove_line-after, AtRest, AtLine, next-AtRest, EndsAs,
  with_line-EndsAs, after_round, visit_lines-round, visit_if_due-now, parsed-Skipped, parsed_in,
  then_started, visit_line-parsed,
}
use azldev.Spec.Edit.{at_section_line}

module _ {S : Type 0} (body : Text → ParsedLine → Visitor S)
    (act : Text → ParsedLine → SectionTarget → S → Action S)
    (acts : (text : Text) (parsed : ParsedLine) (ctx : Context) (s : S)
      → body text parsed ctx s ≡ act_on ctx (act text parsed ctx.current_section s)) where
  abbrev pub visitor : Visitor S
  visitor ctx s = at_section_line ctx.target body ctx s

  -- The loop over these lines ends as the pass over them does.
  abbrev Passes : List Text → Type 0
  Passes lines =
      (fuel : ℕ) (done : List Text) (ctx : Context) (s : S)
      → AtRest done lines ctx
      → 2 * length lines < fuel
      → EndsAs done (walk_from act lines ctx.current_section ctx.parse_state s)
          (visit_lines visitor fuel ctx s)

  Ready-more :
      (done : List Text) (line : Text) (lines : List Text) (ctx : Context)
      → ctx.lines ≡ done ++ (line ∷ lines)
      → ctx.current_line_num ≡ length done
      → ltb ctx.current_line_num (length ctx.lines) ≡ true
  Ready-more done line lines ctx l c =
      let size : length ctx.lines ≡ length done + suc (length lines) =
        ap length l ∙ length-append done (line ∷ lines) in
      ground (arith, size, c)

  here-line :
      (done : List Text) (line : Text) (lines : List Text) (ctx : Context)
      → ctx.lines ≡ done ++ (line ∷ lines)
      → ctx.current_line_num ≡ length done
      → line_at ctx.lines ctx.current_line_num ≡ line
  here-line done line lines ctx l c =
      ap (line_at ctx.lines) c
      ∙ (ap (λ ls. line_at ls (length done)) l ∙ line_at-after done line lines)

  -- A line that was replaced is parsed again and not visited.
  replaced-EndsAs :
      (fuel : ℕ) (done : List Text) (text : Text) (lines : List Text) (ctx : Context) (s : S)
      → Passes lines
      → AtLine done text lines ctx
      → ctx.next_line_to_visit ≡ suc (length done)
      → 2 * length lines < fuel
      → EndsAs done
          (with_line text (
            walk_from act lines
              (section_after
                (new_parsed_line text ctx.parse_state)
                ctx.parse_state
                ctx.current_section)
              (state_after (new_parsed_line text ctx.parse_state) ctx.parse_state)
              s))
          (visit_lines visitor (suc fuel) ctx s)
  unfolding advance
  replaced-EndsAs fuel done text lines ctx s passes (l, c, p, v) late enough =
      let parsed = new_parsed_line text ctx.parse_state in
      let skipped = parsed-Skipped visitor text parsed ctx s (ground arith) in
      let next = skipped.ctx' in
      let rest =
        passes fuel (done ++ (text ∷ [])) (advance next) s
          (next-AtRest done text lines next (
            skipped.same_lines ∙ l,
            skipped.same_line ∙ c,
            skipped.same_parse ∙ p,
            omega (arith, skipped.same_visit, v),
          ))
          enough in
      let as_walked : EndsAs (done ++ (text ∷ []))
          (walk_from act lines (section_after parsed ctx.parse_state ctx.current_section)
            (state_after parsed ctx.parse_state) s)
          (visit_lines visitor fuel (advance next) s) =
        subst
          (λ sec.
            EndsAs (done ++ (text ∷ []))
              (walk_from act lines sec (state_after parsed ctx.parse_state) s)
              (visit_lines visitor fuel (advance next) s))
          skipped.section
          (subst
            (λ st.
              EndsAs (done ++ (text ∷ [])) (walk_from act lines next.current_section st s)
                (visit_lines visitor fuel (advance next) s))
            skipped.state rest) in
      subst (EndsAs done _)
        (sym (
          visit_lines-round visitor fuel ctx s (Ready-more done text lines ctx l c)
          ∙ ap (after_round visitor fuel) (
              visit_line-parsed visitor text ctx s (here-line done text lines ctx l c)
              ∙ skipped.result)))
        (with_line-EndsAs done text _ _ as_walked)

  action-EndsAs :
      (fuel : ℕ) (done : List Text) (line : Text) (lines : List Text) (ctx : Context) (a : Action S)
      → Passes lines
      → AtRest done (line ∷ lines) ctx
      → ctx.parse_state_before ≡ ctx.parse_state
      → 2 * length lines < fuel
      → EndsAs done
          (walk_action act line lines ctx.current_section ctx.parse_state (walk_from act lines) a)
          (after_round visitor (suc fuel) (act_on ctx a))
  unfolding advance replace_current remove_current
  action-EndsAs fuel done line lines ctx (keep s) passes (l, c, p, v) same enough =
      with_line-EndsAs done line _ _ (
        passes (suc fuel) (done ++ (line ∷ [])) (advance ctx) s
          (next-AtRest done line lines ctx (l, c, p, omega (arith, v))) (omega (arith, enough)))
  action-EndsAs fuel done line lines ctx (replace text s) passes (l, c, p, v) same enough =
      let next = replace_current text ctx in
      let replaced : next.lines ≡ done ++ (text ∷ lines) =
        ap (λ n. replace_line ctx.lines n text) c
        ∙ (ap (λ ls. replace_line ls (length done) text) l
            ∙ replace_line-after done line lines text) in
      let state_of = λ (st : SectionTarget).
        EndsAs done
          (with_line text (
            walk_from act lines (section_after (new_parsed_line text st) st ctx.current_section)
              (state_after (new_parsed_line text st) st) s))
          (visit_lines visitor (suc fuel) (advance next) s) in
      subst state_of same (
        replaced-EndsAs fuel done text lines (advance next) s passes
          (replaced, c, ground arith, ground arith) (ground arith) enough)
  action-EndsAs fuel done line lines ctx (remove s) passes (l, c, p, v) same enough =
      let next = remove_current ctx in
      let dropped : next.lines ≡ done ++ lines =
        ap (remove_line ctx.lines) c
        ∙ (ap (λ ls. remove_line ls (length done)) l ∙ remove_line-after done line lines) in
      subst
        (λ st.
          EndsAs done (walk_from act lines ctx.current_section st s)
            (visit_lines visitor (suc fuel) (advance next) s))
        same
        (passes (suc fuel) done (advance next) s (dropped, c, ground arith, ground arith)
          (omega (arith, enough)))
  action-EndsAs fuel done line lines ctx (fail e s) passes (l, c, p, v) same enough = (ctx, refl, l)

  parsed-EndsAs :
      (fuel : ℕ) (done : List Text) (line : Text) (lines : List Text) (parsed : ParsedLine)
      (ctx : Context) (s : S)
      → Passes lines
      → AtRest done (line ∷ lines) ctx
      → 2 * length lines < fuel
      → EndsAs done
          (walk_parsed act line lines ctx.current_section ctx.parse_state
            (walk_from act lines)
            parsed
            s)
          (after_round visitor
            (suc fuel)
            (visit_parsed visitor line parsed (parsed_in parsed ctx) s))
  unfolding visit_parsed end_section start_section at_line at_section_line advance state_after
  parsed-EndsAs fuel done line lines (section_start_line kind name tokens) ctx s passes (l, c, p, v)
        enough =
      let ctx1 = parsed_in (section_start_line kind name tokens) ctx in
      let next = start_section line (end_section ctx1) in
      subst
        (λ out.
          EndsAs done
            (walk_parsed act line lines ctx.current_section ctx.parse_state (walk_from act lines)
              (section_start_line kind name tokens) s)
            (after_round visitor (suc fuel) out))
        (sym (
          ap (then_started visitor line) (visit_if_due-quiet visitor (end_section ctx1) s refl)
          ∙ visit_if_due-quiet visitor next s refl))
        (with_line-EndsAs done line _ _ (
          passes (suc fuel) (done ++ (line ∷ [])) (advance next) s
            (next-AtRest done line lines next (l, c, p, omega (arith, v))) (omega (arith, enough))))
  parsed-EndsAs fuel done line lines (tag_line tag value) ctx s passes (l, c, p, v) enough =
      let next = at_line line (tag_line tag value) (parsed_in (tag_line tag value) ctx) in
      subst
        (λ out.
          EndsAs done
            (walk_parsed act line lines ctx.current_section ctx.parse_state (walk_from act lines)
              (tag_line tag value) s)
            (after_round visitor (suc fuel) out))
        (sym
          (visit_if_due-now visitor next s (ground arith) ∙ acts line (tag_line tag value) next s))
        (action-EndsAs fuel done line lines next
          (act line (tag_line tag value) ctx.current_section s) passes (l, c, p, v) refl enough)
  parsed-EndsAs fuel done line lines (raw_line content) ctx s passes (l, c, p, v) enough =
      let next = at_line line (raw_line content) (parsed_in (raw_line content) ctx) in
      subst
        (λ out.
          EndsAs done
            (walk_parsed act line lines ctx.current_section ctx.parse_state (walk_from act lines)
              (raw_line content) s)
            (after_round visitor (suc fuel) out))
        (sym (visit_if_due-now visitor next s (ground arith) ∙ acts line (raw_line content) next s))
        (action-EndsAs fuel done line lines next (act line (raw_line content) ctx.current_section s)
          passes (l, c, p, v) refl enough)

  visit_lines-Passes : (lines : List Text) → Passes lines
  visit_lines-Passes lines zero done ctx s at_rest enough = absurd (ground arith)
  visit_lines-Passes [] (suc fuel) done ctx s (l, c, p, v) enough =
      let size : length ctx.lines ≡ length done + 0 = ap length l ∙ length-append done [] in
      (ctx, visit_lines-stop visitor fuel ctx s (ground (arith, size)), l)
  visit_lines-Passes (line ∷ lines) (suc zero) done ctx s at_rest enough = absurd (ground arith)
  visit_lines-Passes (line ∷ lines) (suc (suc fuel)) done ctx s (l, c, p, v) enough =
      subst (EndsAs done _)
        (sym (
          visit_lines-round visitor (suc fuel) ctx s (Ready-more done line lines ctx l c)
          ∙ ap (after_round visitor (suc fuel))
              (visit_line-parsed visitor line ctx s (here-line done line lines ctx l c))))
        (parsed-EndsAs fuel done line lines (new_parsed_line line ctx.parse_state) ctx s
          (visit_lines-Passes lines) (l, c, p, v) (omega (arith, enough)))

  finish-EndsAs :
      (failed : Option Error) (lines : List Text) (ctx : Context) (s : S)
      → ctx.lines ≡ lines
      → EndsAs [] (failed, lines, s) (finish visitor (returned failed ctx s))
  unfolding visit_end at_section_line
  finish-EndsAs (some e) lines ctx s l = (ctx, refl, l)
  finish-EndsAs none lines ctx s l = (_, refl, l)

  -- The visit returns as the pass over the lines does.
  pub visit-EndsAs :
      (fuel : ℕ) (spec : List Text) (s : S)
      → 2 * length spec < fuel
      → EndsAs [] (walk act spec s) (visit visitor fuel spec s)
  unfolding initial_context at_section_line
  visit-EndsAs fuel spec s enough =
      let (failed, lines, s') = walk act spec s in
      let (ctx, e, l) =
        visit_lines-Passes spec fuel [] (first visitor spec) s (refl, refl, refl, omega arith)
          enough in
      subst (EndsAs [] (failed, lines, s'))
        (sym (visit-first visitor fuel spec s refl refl ∙ ap (finish visitor) e))
        (finish-EndsAs failed lines ctx s' l)
