-- ===== src/Spec/Parsed.antt =====
-- internal/rpm/spec/spec.go: how Visit reads a line, which depends on the section it is in.
use azldev.Prelude.{ℕ, List, [], ◌∷◌, Bool, true, false, ◌||◌, Option, some, none, reverse}
use azldev.Prelude.{if◌then◌else◌, ◌=?◌}
use azldev.Text.{Text, codes, fields, trim_space, to_lower, has_prefix}
use azldev.Text.Dict.{lookup}
use azldev.Spec.Lines.{
  SectionType, package_section, section_types_by_name, get_package_name_for_section,
}

-- SectionTarget. It is also all there is of a parseState.
pub record SectionTarget : Type 0 where
  pub sect_name : Text
  pub sect_type : SectionType
  pub package_name : Text

-- newParseState
abbrev pub new_parse_state : SectionTarget
new_parse_state = record { sect_name = []; sect_type = package_section; package_name = [] }

-- ParsedLine, with the three types that implement it.
pub data ParsedLine : Type 0 where
  section_start_line : SectionType → Text → List Text → ParsedLine
  tag_line : Text → Text → ParsedLine
  raw_line : Text → ParsedLine

-- `\s` of a regular expression
abbrev is_re_space : ℕ → Bool
is_re_space c = c =? 9 || c =? 10 || c =? 12 || c =? 13 || c =? 32

trim_left_re : Text → Text
trim_left_re [] = []
trim_left_re (c ∷ s) = let rest = trim_left_re s in if is_re_space c then rest else c ∷ s

trim_re : Text → Text
unfolding trim_left_re
trim_re s = reverse (trim_left_re (reverse (trim_left_re s)))

-- The longest run of characters that are no space and no colon, and what follows it.
tag_name : Text → Text × Text
tag_name [] = ([], [])
tag_name (c ∷ s) =
    let (name, rest) = tag_name s in
    if is_re_space c || c =? b':' then ([], c ∷ s) else (c ∷ name, rest)

abbrev tag_of : Text × Text → Option (Text × Text)
tag_of ([], rest) = none
tag_of (c ∷ name, []) = none
tag_of (c ∷ name, d ∷ rest) = if d =? b':' then some (c ∷ name, rest) else none

-- tagRegex, `^\s*([^\s:]+):\s*(.*?)\s*$`, on a line without line breaks: the two groups.
unfoldable pub match_tag : Text → Option (Text × Text)
unfolding tag_name trim_re
match_tag line = elim (tag_of (tag_name (trim_left_re line))) [
  | none ↦ none
  | some (name, rest) ↦ some (name, trim_re rest)
]

-- The part of parseLogicalLine after the test for a section: a tag in a package section, or raw text.
unfoldable pub parse_content : Text → SectionTarget → ParsedLine
parse_content line state = elim state.sect_type [
  | package_section ↦ elim (match_tag line) [
    | some (tag, value) ↦ tag_line tag value
    | none ↦ raw_line line
  ]
  | _ ↦ raw_line line
]

-- parseLogicalLine
unfoldable pub parse_logical_line : Text → SectionTarget → ParsedLine
parse_logical_line line state = elim (fields line) [
  | [] ↦ raw_line []
  | token ∷ tokens ↦ elim (has_prefix token (codes "%")) [
    | false ↦ parse_content line state
    | true ↦ elim (lookup (to_lower token) section_types_by_name) [
      | some kind ↦ section_start_line kind token (token ∷ tokens)
      | none ↦ parse_content line state
    ]
  ]
]

-- newParsedLine
unfoldable pub new_parsed_line : Text → SectionTarget → ParsedLine
new_parsed_line text state =
    parse_logical_line (trim_space (if has_prefix text (codes "#") then [] else text)) state

-- The state after a line.
unfoldable pub state_after : ParsedLine → SectionTarget → SectionTarget
state_after (section_start_line kind name tokens) state = record {
  sect_name = name;
  sect_type = kind;
  package_name = get_package_name_for_section kind tokens;
}
state_after (tag_line tag value) state = state
state_after (raw_line line) state = state

-- parseSpecLine
unfoldable pub parse_spec_line : Text → SectionTarget → ParsedLine × SectionTarget
parse_spec_line text state = let line = new_parsed_line text state in (line, state_after line state)
