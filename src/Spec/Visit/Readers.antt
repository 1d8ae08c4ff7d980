-- ===== src/Spec/Visit/Readers.antt =====
-- internal/rpm/spec/spec.go: visits whose visitor only reads the spec, and keeps variables.
use azldev.Prelude.{
  ℕ, zero, suc, ◌+◌, ◌≤◌, ◌<◌, List, true, false, Option, some, none, Error, ◌≡◌, refl, arith,
}
use azldev.Prelude.{if◌then◌else◌, ltb, leb, length, Bool-cases, inl, inr, subst, sym, ap, ◌∙◌}
use azldev.Text.{Text}
use azldev.Spec.Parsed.{ParsedLine, section_start_line, tag_line, raw_line}
use azldev.Spec.Tree.Build.{line_at}
use azldev.Spec.Visit.{
  section_start, section_end, spec_end, Context, Visitor, Visited, returned, out_of_fuel,
  initial_context, advance, parse_current, end_section, start_section, at_line, visit_if_due,
  visit_parsed, visit_line, visit_lines, visit_end, visit_start, visit,
}

-- The context is at a line, which is to be visited, of these lines.
abbrev At : List Text → ℕ → Context → Type 0
At lines n ctx =
    (ctx.lines ≡ lines)
    × (ctx.current_line_num ≡ n)
    × (ctx.next_line_to_parse ≡ suc n)
    × (ctx.next_line_to_visit ≤ n)

module _ {S : Type 0} (visitor : Visitor S) (keep : Context → S → S)
    (reads : (ctx : Context) (s : S) → visitor ctx s ≡ (none, ctx, keep ctx s))
    (Holds : ℕ → S → Type 0)
    (keep-Holds : (ctx : Context) (s : S)
      → Holds ctx.current_line_num s
      → Holds ctx.current_line_num (keep ctx s))
    (Holds-suc : (n : ℕ) (s : S) → Holds n s → Holds (suc n) s) where
  -- A call that a visitor of this kind makes.
  record Read (lines : List Text) (n : ℕ) (out : Option Error × Context × S) : Type 0 where
    ctx : Context
    s : S
    result : out ≡ (none, ctx, s)
    stays : At lines n ctx
    holds : Holds n s

  visitor-Read :
      (lines : List Text) (n : ℕ) (ctx : Context) (s : S)
      → At lines n ctx
      → Holds n s
      → Read lines n (visitor ctx s)
  visitor-Read lines n ctx s stays holds =
      let (same_lines, here, parse, visit) = stays in
      record {
        ctx = ctx;
        s = keep ctx s;
        result = reads ctx s;
        stays = stays;
        holds =
            subst (λ m. Holds m (keep ctx s)) here
              (keep-Holds ctx s (subst (λ m. Holds m s) (sym here) holds));
      }

  visit_if_due-Read :
      (lines : List Text) (n : ℕ) (ctx : Context) (s : S)
      → At lines n ctx
      → Holds n s
      → Read lines n (visit_if_due visitor ctx s)
  unfolding visit_if_due
  visit_if_due-Read lines n ctx s stays holds =
      let (same_lines, here, parse, due_at) = stays in
      let due : leb ctx.next_line_to_visit ctx.current_line_num ≡ true =
        ground (arith, due_at, here) in
      subst (Read lines n) (ap (λ b. if b then visitor ctx s else (none, ctx, s)) (sym due))
        (visitor-Read lines n ctx s stays holds)

  visit_parsed-Read :
      (lines : List Text) (n : ℕ) (text : Text) (parsed : ParsedLine) (ctx : Context) (s : S)
      → At lines n ctx
      → Holds n s
      → Read lines n (visit_parsed visitor text parsed ctx s)
  unfolding visit_parsed end_section start_section at_line
  visit_parsed-Read lines n text (section_start_line kind name tokens) ctx s stays holds =
      let ended = visit_if_due-Read lines n (end_section ctx) s stays holds in
      subst (Read lines n)
        (ap
          (λ out.
            let (e, ctx', s') = out in
            elim e [
              | some f ↦ (some f, ctx', s')
              | none ↦ visit_if_due visitor (start_section text ctx') s'
            ])
          (sym ended.result))
        (visit_if_due-Read lines n (start_section text ended.ctx) ended.s ended.stays ended.holds)
  visit_parsed-Read lines n text (tag_line tag value) ctx s stays holds =
      visit_if_due-Read lines n (at_line text (tag_line tag value) ctx) s stays holds
  visit_parsed-Read lines n text (raw_line content) ctx s stays holds =
      visit_if_due-Read lines n (at_line text (raw_line content) ctx) s stays holds

  visit_line-Read :
      (lines : List Text) (n : ℕ) (ctx : Context) (s : S)
      → At lines n ctx
      → Holds n s
      → Read lines n (visit_line visitor ctx s)
  unfolding visit_line parse_current
  visit_line-Read lines n ctx s stays holds =
      let (parsed, ctx') = parse_current ctx in
      visit_parsed-Read lines n (line_at ctx.lines ctx.current_line_num) parsed ctx' s stays holds

  abbrev round : ℕ → Option Error × Context × S → Visited S
  round fuel out =
      let (failed, ctx', s') = out in
      elim failed [
        | some e ↦ returned (some e) ctx' s'
        | none ↦ visit_lines visitor fuel (advance ctx') s'
      ]

  loop_round :
      (fuel : ℕ) (ctx ctx' : Context) (s s' : S)
      → ltb ctx.current_line_num (length ctx.lines) ≡ true
      → visit_line visitor ctx s ≡ (none, ctx', s')
      → visit_lines visitor (suc fuel) ctx s ≡ visit_lines visitor fuel (advance ctx') s'
  unfolding visit_lines
  loop_round fuel ctx ctx' s s' more line =
      ap
        (λ b. elim b [ false ↦ returned none ctx s | true ↦ round fuel (visit_line visitor ctx s) ])
        more
      ∙ ap (round fuel) line

  next_round :
      (lines : List Text) (n : ℕ) (ctx : Context) → At lines n ctx → At lines (suc n) (advance ctx)
  unfolding advance
  next_round lines n ctx (same_lines, here, parse, due_at) =
      (same_lines, omega (arith, parse), omega (arith, parse), ground (arith, parse, due_at))

  -- The loop goes through the lines that are left, and stops behind the last one.
  visit_lines-Read :
      (fuel n : ℕ) (lines : List Text) (ctx : Context) (s : S)
      → At lines n ctx
      → Holds n s
      → n ≤ length lines
      → length lines < n + fuel
      → (ctx' : Context) × (s' : S) × (visit_lines visitor fuel ctx s ≡ returned none ctx' s')
        × At lines (length lines) ctx'
        × Holds (length lines) s'
  unfolding visit_lines advance
  visit_lines-Read zero n lines ctx s stays holds le enough = ground (arith, le, enough)
  visit_lines-Read (suc fuel) n lines ctx s stays holds le enough =
      let (same_lines, here, parse, due_at) = stays in
      elim (Bool-cases (ltb n (length lines))) [
        | inr out ↦
            let end : n ≡ length lines = ground arith in
            (
              ctx,
              s,
              ground (arith, here, ap length same_lines),
              subst (λ m. At lines m ctx) end stays,
              subst (λ m. Holds m s) end holds,
            )
        | inl more ↦
            let line = visit_line-Read lines n ctx s stays holds in
            let (ctx', s', e, at_end, holds') =
              visit_lines-Read fuel (suc n) lines (advance line.ctx) line.s
                (next_round lines n line.ctx line.stays) (Holds-suc n line.s line.holds)
                (ground arith) (omega (arith, enough)) in
            (
              ctx',
              s',
              loop_round fuel ctx line.ctx s line.s (ground (arith, here, ap length same_lines))
                    line.result
                  ∙ e,
              at_end,
              holds',
            )
      ]

  visit_start-Read :
      (lines : List Text) (s : S)
      → Holds 0 s
      → Read lines 0 (visit_start visitor (initial_context lines) s)
  unfolding visit_start initial_context
  visit_start-Read lines s holds =
      let started =
        visitor-Read lines 0 (initial_context lines) s (refl, refl, refl, omega arith) holds in
      subst (Read lines 0)
        (ap
          (λ out.
            let (failed, ctx', s') = out in
            elim failed [
              | some e ↦ (some e, ctx', s')
              | none ↦ visitor (record ctx' { target = section_start }) s'
            ])
          (sym started.result))
        (visitor-Read lines 0 (record started.ctx { target = section_start }) started.s
          started.stays started.holds)

  abbrev last_call : Option Error × Context × S → Visited S
  last_call (failed, ctx, s) = returned failed ctx s

  abbrev after_lines : Visited S → Visited S
  after_lines out_of_fuel = out_of_fuel
  after_lines (returned (some e) ctx s) = returned (some e) ctx s
  after_lines (returned none ctx s) = visit_end visitor ctx s

  visit_end-Read :
      (lines : List Text) (n : ℕ) (ctx : Context) (s : S)
      → At lines n ctx
      → Holds n s
      → (ctx' : Context) × (s' : S) × (visit_end visitor ctx s ≡ returned none ctx' s')
        × At lines n ctx'
        × Holds n s'
  unfolding visit_end
  visit_end-Read lines n ctx s stays holds =
      let ended =
        visitor-Read lines n (record ctx { target = section_end; raw_line = none }) s stays holds in
      let done =
        visitor-Read lines n (record ended.ctx { target = spec_end; raw_line = none }) ended.s
          ended.stays ended.holds in
      (
        done.ctx,
        done.s,
        ap
              (λ out.
                let (failed, ctx', s') = out in
                elim failed [
                  | some e ↦ returned (some e) ctx' s'
                  | none ↦
                      last_call (visitor (record ctx' { target = spec_end; raw_line = none }) s')
                ])
              ended.result
            ∙ ap last_call done.result,
        done.stays,
        done.holds,
      )

  -- A visit that reads returns without an error and leaves the lines, and what holds of its variables
  -- at each line holds at the end.
  pub visit-Read :
      (fuel : ℕ) (lines : List Text) (s : S)
      → Holds 0 s
      → length lines < fuel
      → (ctx : Context) × (s' : S) × (visit visitor fuel lines s ≡ returned none ctx s')
        × (ctx.lines ≡ lines)
        × Holds (length lines) s'
  unfolding visit
  visit-Read fuel lines s holds enough =
      let started = visit_start-Read lines s holds in
      let (ctx, s', all_read, stays, holds') =
        visit_lines-Read fuel 0 lines started.ctx started.s started.stays started.holds
          (omega arith) (omega (arith, enough)) in
      let (ctx', s'', ended, stays', holds'') =
        visit_end-Read lines (length lines) ctx s' stays holds' in
      let (same_lines, _, _, _) = stays' in
      (
        ctx',
        s'',
        ap
              (λ out.
                let (failed, c, t) = out in
                elim failed [
                  | some e ↦ returned (some e) c t
                  | none ↦ after_lines (visit_lines visitor fuel c t)
                ])
              started.result
            ∙ (ap after_lines all_read ∙ ended),
        same_lines,
        holds'',
      )
