-- ===== src/Spec/Visit.antt =====
-- internal/rpm/spec/spec.go: the lines of a Spec, the Context of a visit with its edits, and Visit.
pub mod Readers
pub mod Moves
pub mod Movers
pub mod Rounds
pub mod Ends
pub mod Quiet
pub mod Walk
use azldev.Prelude.{
  ℕ, zero, suc, ◌+◌, List, [], ◌∷◌, ◌++◌, Bool, true, false, Option, some, none, Error,
}
use azldev.Prelude.{if◌then◌else◌, ltb, leb, length, take, drop}
use azldev.Text.{Text}
use azldev.Spec.Parsed.{
  SectionTarget, new_parse_state, ParsedLine, section_start_line, tag_line, raw_line,
  parse_spec_line,
}
use azldev.Spec.Tree.Build.{line_at}

-- Spec.InsertLinesAt, RemoveLines, RemoveLine and ReplaceLine, at line numbers inside the spec; the
-- code panics outside.
unfoldable pub insert_lines_at : List Text → List Text → ℕ → List Text
insert_lines_at lines inserted n = take n lines ++ (inserted ++ drop n lines)

unfoldable pub remove_lines : List Text → ℕ → ℕ → List Text
remove_lines lines start end = take start lines ++ drop end lines

unfoldable pub remove_line : List Text → ℕ → List Text
remove_line lines n = remove_lines lines n (suc n)

unfoldable pub replace_line : List Text → ℕ → Text → List Text
replace_line lines n replacement = take n lines ++ (replacement ∷ drop (suc n) lines)

-- VisitTarget and VisitTargetType. The section of a target is the context's current one.
pub data Target : Type 0 where
  spec_start section_start section_end spec_end : Target
  section_line : Text → ParsedLine → Target

-- Context, with the lines of the spec that it points to.
pub record Context : Type 0 where
  pub target : Target
  pub raw_line : Option Text
  pub current_section : SectionTarget
  pub current_line_num : ℕ
  pub parse_state_before : SectionTarget
  pub parse_state : SectionTarget
  pub next_line_to_parse : ℕ
  pub next_line_to_visit : ℕ
  pub lines : List Text

-- Context.InsertLinesBefore
unfoldable pub insert_lines_before : List Text → Context → Context
insert_lines_before inserted ctx = record ctx {
  lines = insert_lines_at ctx.lines inserted ctx.current_line_num;
  parse_state = ctx.parse_state_before;
  next_line_to_parse = ctx.current_line_num;
  next_line_to_visit = ctx.current_line_num + length inserted + 1;
}

-- Context.InsertLinesAfter
unfoldable pub insert_lines_after : List Text → Context → Context
insert_lines_after inserted ctx = record ctx {
  lines = insert_lines_at ctx.lines inserted (ctx.current_line_num + 1);
  next_line_to_parse = ctx.current_line_num + 1;
  next_line_to_visit = ctx.next_line_to_visit + length inserted;
}

-- Context.RemoveLine
unfoldable pub remove_current : Context → Context
remove_current ctx = record ctx {
  lines = remove_line ctx.lines ctx.current_line_num;
  parse_state = ctx.parse_state_before;
  next_line_to_parse = ctx.current_line_num;
  next_line_to_visit = ctx.current_line_num;
}

-- Context.ReplaceLine
unfoldable pub replace_current : Text → Context → Context
replace_current replacement ctx = record ctx {
  lines = replace_line ctx.lines ctx.current_line_num replacement;
  parse_state = ctx.parse_state_before;
  next_line_to_parse = ctx.current_line_num;
  next_line_to_visit = ctx.current_line_num + 1;
}

-- A visitor, with the variables that it captures: it changes both, also when it fails.
abbrev pub Visitor : Type 0 → Type 0
Visitor S = Context → S → Option Error × Context × S

-- How a visit ends: as Visit returns, or not within the fuel.
pub data Visited (S : Type 0) : Type 0 where
  returned : Option Error → Context → S → Visited S
  out_of_fuel : Visited S

-- The context before the first line.
unfoldable pub initial_context : List Text → Context
initial_context lines = record {
  target = spec_start;
  raw_line = none;
  current_section = new_parse_state;
  current_line_num = 0;
  parse_state_before = new_parse_state;
  parse_state = new_parse_state;
  next_line_to_parse = 1;
  next_line_to_visit = 0;
  lines = lines;
}

abbrev max : ℕ → ℕ → ℕ
max a b = if leb a b then b else a

-- The end of a round: on to the line that is to be parsed next.
unfoldable pub advance : Context → Context
advance ctx = record ctx {
  current_line_num = ctx.next_line_to_parse;
  next_line_to_parse = ctx.next_line_to_parse + 1;
  next_line_to_visit = max ctx.next_line_to_parse ctx.next_line_to_visit;
}

-- The start of a round: the current line is parsed.
unfoldable pub parse_current : Context → ParsedLine × Context
parse_current ctx =
    let (parsed, state) =
      parse_spec_line (line_at ctx.lines ctx.current_line_num) ctx.parse_state in
    (parsed, record ctx { parse_state_before = ctx.parse_state; parse_state = state })

-- The section that ends before a header, and the header.
unfoldable pub end_section : Context → Context
end_section ctx = record ctx { target = section_end; raw_line = none }

unfoldable pub start_section : Text → Context → Context
start_section text ctx = record ctx {
  current_section = ctx.parse_state;
  raw_line = some text;
  target = section_start;
}

unfoldable pub at_line : Text → ParsedLine → Context → Context
at_line text parsed ctx = record ctx { raw_line = some text; target = section_line text parsed }

module _ {S : Type 0} (visitor : Visitor S) where
  -- A call of the visitor, if the line is to be visited.
  unfoldable pub visit_if_due : Visitor S
  visit_if_due ctx s =
      if leb ctx.next_line_to_visit ctx.current_line_num then visitor ctx s else (none, ctx, s)

  -- The calls for a line that was parsed.
  unfoldable pub visit_parsed : Text → ParsedLine → Visitor S
  visit_parsed text (section_start_line kind name tokens) ctx s =
      let (ended, ctx', s') = visit_if_due (end_section ctx) s in
      elim ended [ some e ↦ (some e, ctx', s') | none ↦ visit_if_due (start_section text ctx') s' ]
  visit_parsed text (tag_line tag value) ctx s =
      visit_if_due (at_line text (tag_line tag value) ctx) s
  visit_parsed text (raw_line content) ctx s = visit_if_due (at_line text (raw_line content) ctx) s

  -- The body of the loop.
  unfoldable pub visit_line : Visitor S
  visit_line ctx s =
      let (parsed, ctx') = parse_current ctx in
      visit_parsed (line_at ctx.lines ctx.current_line_num) parsed ctx' s

  -- The loop.
  unfoldable pub visit_lines : ℕ → Context → S → Visited S
  visit_lines zero ctx s = out_of_fuel
  visit_lines (suc fuel) ctx s = elim (ltb ctx.current_line_num (length ctx.lines)) [
    | false ↦ returned none ctx s
    | true ↦
        let (failed, ctx', s') = visit_line ctx s in
        elim failed [
          | some e ↦ returned (some e) ctx' s'
          | none ↦ visit_lines fuel (advance ctx') s'
        ]
  ]

  -- The calls after the loop: the end of the last section, and of the spec.
  unfoldable pub visit_end : Context → S → Visited S
  visit_end ctx s =
      let (failed, ctx', s') = visitor (record ctx { target = section_end; raw_line = none }) s in
      elim failed [
        | some e ↦ returned (some e) ctx' s'
        | none ↦
            let (failed', ctx'', s'') =
              visitor (record ctx' { target = spec_end; raw_line = none }) s' in
            returned failed' ctx'' s''
      ]

  -- The calls before the loop: the start of the spec, and of the preamble.
  unfoldable pub visit_start : Visitor S
  visit_start ctx s =
      let (failed, ctx', s') = visitor ctx s in
      elim failed [
        | some e ↦ (some e, ctx', s')
        | none ↦ visitor (record ctx' { target = section_start }) s'
      ]

  -- Visit
  unfoldable pub visit : ℕ → List Text → S → Visited S
  visit fuel lines s =
      let (failed, ctx, s') = visit_start (initial_context lines) s in
      elim failed [
        | some e ↦ returned (some e) ctx s'
        | none ↦ elim (visit_lines fuel ctx s') [
          | out_of_fuel ↦ out_of_fuel
          | returned (some e) ctx' s'' ↦ returned (some e) ctx' s''
          | returned none ctx' s'' ↦ visit_end ctx' s''
        ]
      ]
