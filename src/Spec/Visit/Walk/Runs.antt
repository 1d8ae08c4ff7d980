-- ===== src/Spec/Visit/Walk/Runs.antt =====
-- internal/rpm/spec/spec.go: the rounds of a visit against the pass over the lines.
use azldev.Prelude.{ℕ, suc, ◌≤◌, List, [], ◌∷◌, ◌++◌, true, false}
use azldev.Prelude.{Option, some, none, Error, ◌≡◌, refl, arith, ltb, leb, length, sym, ap, ◌∙◌}
use azldev.Prelude.{length-append, append_assoc, if◌then◌else◌}
use azldev.Text.{Text}
use azldev.Spec.Parsed.{
  ParsedLine, section_start_line, tag_line, raw_line, new_parsed_line, state_after, parse_spec_line,
}
use azldev.Spec.Tree.Build.{line_at}
use azldev.Spec.Visit.{
  Context, Visitor, Visited, returned, advance, visit_line, visit_lines, visit_if_due, visit_parsed,
  parse_current, end_section, start_section, at_line, replace_line, remove_line, remove_lines,
}
use azldev.Spec.Visit.Quiet.{}
use azldev.Spec.Visit.Walk.{Walked, section_after, with_line}

pub line_at-after :
    (done : List Text) (line : Text) (lines : List Text)
    → line_at (done ++ (line ∷ lines)) (length done) ≡ line
unfolding line_at
line_at-after [] line lines = refl
line_at-after (x ∷ done) line lines = line_at-after done line lines

pub replace_line-after :
    (done : List Text) (line : Text) (lines : List Text) (text : Text)
    → replace_line (done ++ (line ∷ lines)) (length done) text ≡ done ++ (text ∷ lines)
unfolding replace_line
replace_line-after [] line lines text = refl
replace_line-after (x ∷ done) line lines text =
    ap (λ ls. x ∷ ls) (replace_line-after done line lines text)

pub remove_line-after :
    (done : List Text) (line : Text) (lines : List Text)
    → remove_line (done ++ (line ∷ lines)) (length done) ≡ done ++ lines
unfolding remove_line remove_lines
remove_line-after [] line lines = refl
remove_line-after (x ∷ done) line lines = ap (λ ls. x ∷ ls) (remove_line-after done line lines)

-- The context is at the first of the lines that are left, and visits it.
abbrev pub AtRest : List Text → List Text → Context → Type 0
AtRest done rest ctx =
    (ctx.lines ≡ done ++ rest)
    × (ctx.current_line_num ≡ length done)
    × (ctx.next_line_to_parse ≡ suc (length done))
    × (ctx.next_line_to_visit ≤ length done)

-- The fields of a context that the next round goes by.
abbrev pub AtLine : List Text → Text → List Text → Context → Type 0
AtLine done line lines ctx =
    (ctx.lines ≡ done ++ (line ∷ lines))
    × (ctx.current_line_num ≡ length done)
    × (ctx.next_line_to_parse ≡ suc (length done))
    × (ctx.next_line_to_visit ≤ suc (length done))

pub next-AtRest :
    (done : List Text) (line : Text) (lines : List Text) (ctx : Context)
    → AtLine done line lines ctx
    → AtRest (done ++ (line ∷ [])) lines (advance ctx)
unfolding advance
next-AtRest done line lines ctx (l, c, p, v) = (
  l ∙ sym (append_assoc done (line ∷ []) lines),
  ground (arith, length-append done (line ∷ [])),
  ground (arith, length-append done (line ∷ [])),
  ground (arith, length-append done (line ∷ [])),
)

-- The context of a line that was parsed.
abbrev pub parsed_in : ParsedLine → Context → Context
parsed_in parsed ctx = record ctx {
  parse_state_before = ctx.parse_state;
  parse_state = state_after parsed ctx.parse_state;
}

module _ {S : Type 0} where
  -- A loop ends as the pass does.
  abbrev pub EndsAs : List Text → Walked S → Visited S → Type 0
  EndsAs done (failed, lines, s) out =
      (ctx : Context) × (out ≡ returned failed ctx s) × (ctx.lines ≡ done ++ lines)

  pub with_line-EndsAs :
      (done : List Text) (line : Text) (walked : Walked S) (out : Visited S)
      → EndsAs (done ++ (line ∷ [])) walked out
      → EndsAs done (with_line line walked) out
  with_line-EndsAs done line (failed, lines, s) out (ctx, e, l) =
      (ctx, e, l ∙ append_assoc done (line ∷ []) lines)

  module _ (visitor : Visitor S) where
    abbrev pub after_round : ℕ → Option Error × Context × S → Visited S
    after_round fuel (failed, ctx, s) = elim failed [
      | some e ↦ returned (some e) ctx s
      | none ↦ visit_lines visitor fuel (advance ctx) s
    ]

    pub visit_lines-round :
        (fuel : ℕ) (ctx : Context) (s : S)
        → ltb ctx.current_line_num (length ctx.lines) ≡ true
        → visit_lines visitor (suc fuel) ctx s ≡ after_round fuel (visit_line visitor ctx s)
    unfolding visit_lines
    visit_lines-round fuel ctx s more =
        ap
          (λ b. elim b as (λ _. Visited S) [
            | false ↦ returned none ctx s
            | true ↦ after_round fuel (visit_line visitor ctx s)
          ])
          more

    -- A line that is parsed and not visited.
    pub record Skipped (parsed : ParsedLine) (ctx : Context) (s : S)
        (out : Option Error × Context × S) : Type 0 where
      pub ctx' : Context
      pub result : out ≡ (none, ctx', s)
      pub same_lines : ctx'.lines ≡ ctx.lines
      pub same_line : ctx'.current_line_num ≡ ctx.current_line_num
      pub same_parse : ctx'.next_line_to_parse ≡ ctx.next_line_to_parse
      pub same_visit : ctx'.next_line_to_visit ≡ ctx.next_line_to_visit
      pub section : ctx'.current_section ≡ section_after parsed ctx.parse_state ctx.current_section
      pub state : ctx'.parse_state ≡ state_after parsed ctx.parse_state

    pub visit_if_due-late :
        (ctx : Context) (s : S)
        → leb ctx.next_line_to_visit ctx.current_line_num ≡ false
        → visit_if_due visitor ctx s ≡ (none, ctx, s)
    unfolding visit_if_due
    visit_if_due-late ctx s late = ap (λ b. if b then visitor ctx s else (none, ctx, s)) late

    pub visit_if_due-now :
        (ctx : Context) (s : S)
        → leb ctx.next_line_to_visit ctx.current_line_num ≡ true
        → visit_if_due visitor ctx s ≡ visitor ctx s
    unfolding visit_if_due
    visit_if_due-now ctx s due = ap (λ b. if b then visitor ctx s else (none, ctx, s)) due

    abbrev pub then_started : Text → Option Error × Context × S → Option Error × Context × S
    then_started text (ended, ctx, s) = elim ended [
      | some e ↦ (some e, ctx, s)
      | none ↦ visit_if_due visitor (start_section text ctx) s
    ]

    pub parsed-Skipped :
        (text : Text) (parsed : ParsedLine) (ctx : Context) (s : S)
        → leb ctx.next_line_to_visit ctx.current_line_num ≡ false
        → Skipped parsed ctx s (visit_parsed visitor text parsed (parsed_in parsed ctx) s)
    unfolding visit_parsed end_section start_section at_line
    parsed-Skipped text (section_start_line kind name tokens) ctx s late =
        let ctx1 = parsed_in (section_start_line kind name tokens) ctx in
        record {
          ctx' = start_section text (end_section ctx1);
          result =
              ap (then_started text) (visit_if_due-late (end_section ctx1) s late)
              ∙ visit_if_due-late (start_section text (end_section ctx1)) s late;
          same_lines = refl;
          same_line = refl;
          same_parse = refl;
          same_visit = refl;
          section = refl;
          state = refl;
        }
    parsed-Skipped text (tag_line tag value) ctx s late =
        let parsed = tag_line tag value in
        record {
          ctx' = at_line text parsed (parsed_in parsed ctx);
          result = visit_if_due-late (at_line text parsed (parsed_in parsed ctx)) s late;
          same_lines = refl;
          same_line = refl;
          same_parse = refl;
          same_visit = refl;
          section = refl;
          state = refl;
        }
    parsed-Skipped text (raw_line content) ctx s late =
        let parsed = raw_line content in
        record {
          ctx' = at_line text parsed (parsed_in parsed ctx);
          result = visit_if_due-late (at_line text parsed (parsed_in parsed ctx)) s late;
          same_lines = refl;
          same_line = refl;
          same_parse = refl;
          same_visit = refl;
          section = refl;
          state = refl;
        }

    pub visit_line-parsed :
        (line : Text) (ctx : Context) (s : S)
        → line_at ctx.lines ctx.current_line_num ≡ line
        → visit_line visitor ctx s
          ≡ visit_parsed visitor line
              (new_parsed_line line ctx.parse_state)
              (parsed_in (new_parsed_line line ctx.parse_state) ctx)
              s
    unfolding visit_line parse_current parse_spec_line
    visit_line-parsed line ctx s here =
        ap
          (λ l.
            visit_parsed visitor l (new_parsed_line l ctx.parse_state)
              (parsed_in (new_parsed_line l ctx.parse_state) ctx) s)
          here
