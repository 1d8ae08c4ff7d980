-- ===== src/Spec/Visit/Walk.antt =====
-- internal/rpm/spec/spec.go: a visit as one pass over the lines, by what its visitor does at each line.
pub mod Runs
pub mod Passes
pub mod Succeeds
use azldev.Prelude.{List, [], ◌∷◌, Option, some, none, Error}
use azldev.Text.{Text}
use azldev.Spec.Parsed.{
  SectionTarget, new_parse_state, ParsedLine, section_start_line, tag_line, raw_line,
  new_parsed_line, state_after,
}
use azldev.Spec.Visit.{Context, replace_current, remove_current}

-- What a visitor does at a line, with its variables afterwards.
pub data Action (S : Type 0) : Type 0 where
  keep : S → Action S
  replace : Text → S → Action S
  remove : S → Action S
  fail : Error → S → Action S

-- The error, the lines and the variables after a pass.
abbrev pub Walked : Type 0 → Type 0
Walked S = Option Error × List Text × S

-- The section of the lines after a line, and before it.
abbrev pub section_after : ParsedLine → SectionTarget → SectionTarget → SectionTarget
section_after (section_start_line kind name tokens) state section =
    state_after (section_start_line kind name tokens) state
section_after (tag_line tag value) state section = section
section_after (raw_line content) state section = section

module _ {S : Type 0} where
  abbrev pub with_line : Text → Walked S → Walked S
  with_line line (failed, lines, s) = (failed, line ∷ lines, s)

  -- An action as a call of a visitor.
  abbrev pub act_on : Context → Action S → Option Error × Context × S
  act_on ctx (keep s) = (none, ctx, s)
  act_on ctx (replace text s) = (none, replace_current text ctx, s)
  act_on ctx (remove s) = (none, remove_current ctx, s)
  act_on ctx (fail e s) = (some e, ctx, s)

  module _ (act : Text → ParsedLine → SectionTarget → S → Action S) where
    -- An action at a line, and the pass over the lines after it.
    abbrev pub walk_action :
        Text
        → List Text
        → SectionTarget
        → SectionTarget
        → (SectionTarget → SectionTarget → S → Walked S)
        → Action S
        → Walked S
    walk_action line lines section state rest (keep s) = with_line line (rest section state s)
    walk_action line lines section state rest (replace text s) =
        let parsed = new_parsed_line text state in
        with_line text (rest (section_after parsed state section) (state_after parsed state) s)
    walk_action line lines section state rest (remove s) = rest section state s
    walk_action line lines section state rest (fail e s) = (some e, line ∷ lines, s)

    -- A parsed line.
    abbrev pub walk_parsed :
        Text
        → List Text
        → SectionTarget
        → SectionTarget
        → (SectionTarget → SectionTarget → S → Walked S)
        → ParsedLine
        → S
        → Walked S
    walk_parsed line lines section state rest (section_start_line kind name tokens) s =
        let header = section_start_line kind name tokens in
        with_line line (rest (state_after header state) (state_after header state) s)
    walk_parsed line lines section state rest (tag_line tag value) s =
        walk_action line lines section state rest (act line (tag_line tag value) section s)
    walk_parsed line lines section state rest (raw_line content) s =
        walk_action line lines section state rest (act line (raw_line content) section s)

    -- The pass over lines, in a section and in a state of the parser.
    abbrev pub walk_from : List Text → SectionTarget → SectionTarget → S → Walked S
    walk_from [] section state s = (none, [], s)
    walk_from (line ∷ lines) section state s =
        walk_parsed line lines section state (walk_from lines) (new_parsed_line line state) s

    abbrev pub walk : List Text → S → Walked S
    walk spec s = walk_from spec new_parse_state new_parse_state s
