-- ===== src/Spec/Edit/Actions.antt =====
-- internal/rpm/spec/edit.go: what the edits do at a line, by the line, its section and its tag alone.
use azldev.Prelude.{ℕ, ◌+◌, [], Bool, true, false, ◌&&◌, ◌||◌, not}
use azldev.Prelude.{wrap, Result, ok, err, if◌then◌else◌}
use azldev.Text.{Text, ◌==◌, codes, to_lower, trim_space}
use azldev.Text.Dict.{is_some}
use azldev.Spec.Parsed.{SectionTarget, ParsedLine, section_start_line, tag_line, raw_line}
use azldev.Spec.Edit.Tags.{tag_text}
use azldev.Spec.Edit.Patches.{parse_patch_tag_number}
use azldev.Spec.Visit.Walk.{Action, keep, replace, remove, fail}

-- An action at a line, in a section.
abbrev pub LineAction : Type 0 → Type 0
LineAction S = Text → ParsedLine → SectionTarget → S → Action S

module _ {S : Type 0} where
  -- An action at the lines of tags.
  abbrev pub at_tags : (SectionTarget → Text → Text → S → Action S) → LineAction S
  at_tags action line (tag_line tag value) section s = action section tag value s
  at_tags action line (section_start_line kind name tokens) section s = keep s
  at_tags action line (raw_line content) section s = keep s

-- The tag of a package, in any case.
abbrev pub is_tag : Text → Text → SectionTarget → Text → Bool
is_tag package_name tag section found_tag =
    section.package_name == package_name && to_lower found_tag == to_lower tag

abbrev pub update_action : Text → Text → Text → LineAction Bool
update_action package_name tag value = at_tags (λ section found_tag found_value updated.
    if is_tag package_name tag section found_tag
    then replace (tag_text tag value) true
    else keep updated)

abbrev pub remove_action : (Text → Text → Bool) → Text → Text → Text → LineAction ℕ
remove_action equal_fold package_name tag value = at_tags (λ section found_tag found_value n.
    if is_tag package_name tag section found_tag && (value == [] || equal_fold found_value value)
    then remove (n + 1)
    else keep n)

-- A section and a package that are not given are not asked for.
abbrev pub is_wanted : Text → Text → Bool
is_wanted wanted name = wanted == [] || name == wanted

abbrev pub search_action : (Text → Text) → Text → Text → LineAction Bool
search_action replace_all section_name package_name line parsed section updated =
    if is_wanted section_name section.sect_name
      && is_wanted package_name section.package_name
      && not (line == replace_all line)
    then replace (replace_all line) true
    else keep updated

module _ (match : Text → Result Bool) where
  abbrev pub match_action : Text → ℕ → Action ℕ
  match_action value n = elim (match value) [
    | err e ↦ fail (wrap "failed to match glob pattern %#q against %#q:\n%w" e) n
    | ok true ↦ remove (n + 1)
    | ok false ↦ keep n
  ]

  -- The value of a numbered or unnumbered patch tag is matched.
  abbrev pub patch_tag_action : LineAction ℕ
  patch_tag_action = at_tags (λ section tag value n.
      if is_some (parse_patch_tag_number tag) then match_action value n else keep n)

  -- A line of a %patchlist with text is matched.
  abbrev pub patchlist_action : LineAction ℕ
  patchlist_action line parsed section n =
      if section.sect_name == codes "%patchlist" && not (trim_space line == [])
      then match_action (trim_space line) n
      else keep n
