-- ===== src/Spec/Visit/Walk/Succeeds.antt =====
-- internal/rpm/spec/spec.go: a pass of which no action fails.
use azldev.Prelude.{List, [], ◌∷◌, Bool, true, false, none, ◌≡◌, refl, arith}
use azldev.Text.{Text}
use azldev.Spec.Parsed.{
  SectionTarget, ParsedLine, section_start_line, tag_line, raw_line, new_parsed_line,
}
use azldev.Spec.Visit.Walk.{
  Action, keep, replace, remove, fail, Walked, walk_action, walk_parsed, walk_from,
}

module _ {S : Type 0} where
  abbrev pub fails : Action S → Bool
  fails (keep s) = false
  fails (replace text s) = false
  fails (remove s) = false
  fails (fail e s) = true

  abbrev Succeeds : Walked S → Type 0
  Succeeds (failed, lines, s) = failed ≡ none

  module _ (act : Text → ParsedLine → SectionTarget → S → Action S)
      (safe : (line : Text) (parsed : ParsedLine) (section : SectionTarget) (s : S)
        → fails (act line parsed section s) ≡ false) where
    action-Succeeds :
        (line : Text) (lines : List Text) (section state : SectionTarget)
        (rest : SectionTarget → SectionTarget → S → Walked S) (a : Action S)
        → ((section state : SectionTarget) (s : S) → Succeeds (rest section state s))
        → fails a ≡ false
        → Succeeds (walk_action act line lines section state rest a)
    action-Succeeds line lines section state rest (keep s) succeeds h = succeeds _ _ s
    action-Succeeds line lines section state rest (replace text s) succeeds h = succeeds _ _ s
    action-Succeeds line lines section state rest (remove s) succeeds h = succeeds _ _ s
    action-Succeeds line lines section state rest (fail e s) succeeds h = absurd (ground arith)

    parsed-Succeeds :
        (line : Text) (lines : List Text) (section state : SectionTarget)
        (rest : SectionTarget → SectionTarget → S → Walked S) (parsed : ParsedLine) (s : S)
        → ((section state : SectionTarget) (s : S) → Succeeds (rest section state s))
        → Succeeds (walk_parsed act line lines section state rest parsed s)
    parsed-Succeeds line lines section state rest (section_start_line kind name tokens) s succeeds =
        succeeds _ _ s
    parsed-Succeeds line lines section state rest (tag_line tag value) s succeeds =
        action-Succeeds line lines section state rest _ succeeds
          (safe line (tag_line tag value) section s)
    parsed-Succeeds line lines section state rest (raw_line content) s succeeds =
        action-Succeeds line lines section state rest _ succeeds
          (safe line (raw_line content) section s)

    pub walk_from-Succeeds :
        (lines : List Text) (section state : SectionTarget) (s : S)
        → Succeeds (walk_from act lines section state s)
    walk_from-Succeeds [] section state s = refl
    walk_from-Succeeds (line ∷ lines) section state s =
        parsed-Succeeds line lines section state (walk_from act lines) (new_parsed_line line state)
          s (walk_from-Succeeds lines)
