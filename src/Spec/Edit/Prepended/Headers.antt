-- ===== src/Spec/Edit/Prepended/Headers.antt =====
-- internal/rpm/spec/spec.go: the lines that start a section.
use azldev.Prelude.{List, [], ◌∷◌, Bool, true, false, Option, some, none}
use azldev.Prelude.{◌≡◌, refl, arith, sym, ap, ◌∙◌}
use azldev.Prelude.{if◌then◌else◌}
use azldev.Text.{Text, codes, fields, trim_space, to_lower, has_prefix}
use azldev.Text.Dict.{lookup}
use azldev.Spec.Lines.{SectionType, section_types_by_name, get_package_name_for_section}
use azldev.Spec.Parsed.{
  SectionTarget, ParsedLine, section_start_line, tag_line, raw_line, new_parsed_line,
  parse_logical_line, parse_content,
}
use azldev.Spec.Visit.{}

-- A parsed line that starts a section.
abbrev pub is_header : ParsedLine → Bool
is_header (section_start_line kind name tokens) = true
is_header (tag_line tag value) = false
is_header (raw_line line) = false

-- Whether a line is a header.
abbrev pub starts_section : Text → SectionTarget → Bool
starts_section text state = is_header (new_parsed_line text state)

-- The state of the parser has no part in it.
parse_content-starts_none :
    (line : Text) (state : SectionTarget) → is_header (parse_content line state) ≡ false
unfolding parse_content
parse_content-starts_none line state = ground arith

-- The kind of a logical line, by its fields, its sigil and its keyword.
abbrev header_choice :
    Text → SectionTarget → Text → List Text → Bool → Option SectionType → ParsedLine
header_choice line state token tokens false kind = parse_content line state
header_choice line state token tokens true none = parse_content line state
header_choice line state token tokens true (some kind) =
    section_start_line kind token (token ∷ tokens)

header_choice-any :
    (line : Text) (state state' : SectionTarget) (token : Text) (tokens : List Text) (sigil : Bool)
    (kind : Option SectionType)
    → is_header (header_choice line state token tokens sigil kind)
      ≡ is_header (header_choice line state' token tokens sigil kind)
header_choice-any line state state' token tokens false kind =
    ground (arith, parse_content-starts_none line state, parse_content-starts_none line state')
header_choice-any line state state' token tokens true none =
    ground (arith, parse_content-starts_none line state, parse_content-starts_none line state')
header_choice-any line state state' token tokens true (some kind) = refl

abbrev logical_choice : Text → SectionTarget → List Text → ParsedLine
logical_choice line state [] = raw_line []
logical_choice line state (token ∷ tokens) =
    header_choice line state token tokens (has_prefix token (codes "%"))
      (lookup (to_lower token) section_types_by_name)

logical_choice-any :
    (line : Text) (state state' : SectionTarget) (tokens : List Text)
    → is_header (logical_choice line state tokens) ≡ is_header (logical_choice line state' tokens)
logical_choice-any line state state' [] = refl
logical_choice-any line state state' (token ∷ tokens) =
    header_choice-any line state state' token tokens (has_prefix token (codes "%"))
      (lookup (to_lower token) section_types_by_name)

parse_logical_line-choice :
    (line : Text) (state : SectionTarget)
    → parse_logical_line line state ≡ logical_choice line state (fields line)
unfolding parse_logical_line
parse_logical_line-choice line state =
    elim (fields line)
      as (λ ts.
        (elim ts as (λ _. ParsedLine) [
          | [] ↦ raw_line []
          | token ∷ tokens ↦ elim (has_prefix token (codes "%")) [
            | false ↦ parse_content line state
            | true ↦ elim (lookup (to_lower token) section_types_by_name) [
              | some kind ↦ section_start_line kind token (token ∷ tokens)
              | none ↦ parse_content line state
            ]
          ]
        ])
        ≡ logical_choice line state ts) [ [] ↦ refl | token ∷ tokens ↦ ground arith ]

pub starts_section-any :
    (text : Text) (state state' : SectionTarget)
    → starts_section text state ≡ starts_section text state'
unfolding new_parsed_line
starts_section-any text state state' =
    let line = trim_space (if has_prefix text (codes "#") then [] else text) in
    ap is_header (parse_logical_line-choice line state)
    ∙ (logical_choice-any line state state' (fields line)
        ∙ ap is_header (sym (parse_logical_line-choice line state')))

module _ (section_name package_name : Text) where
  -- A header of the section, whatever stands before it.
  pub record Heads (text : Text) : Type 0 where
    pub kind : SectionType
    pub tokens : List Text
    pub starts :
        (state : SectionTarget)
        → new_parsed_line text state ≡ section_start_line kind section_name tokens
    pub of_package : get_package_name_for_section kind tokens ≡ package_name
