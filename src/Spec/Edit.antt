-- ===== src/Spec/Edit.antt =====
-- internal/rpm/spec/edit.go: the edits of a Spec that visit its lines. An operation returns its
-- error and the lines, which it may have changed also when it fails. The fuel of a visit is that of
-- `visit_fuel`.
pub mod Tags
pub mod Insertion
pub mod Patches
pub mod Calls
pub mod Outcomes
pub mod Appended
pub mod Actions
pub mod Walks
pub mod Prepended
pub mod Rewritten
pub mod Dropped
pub mod SetTag
pub mod Inserted
pub mod PatchVisits
pub mod PatchesRemoved
pub mod PatchWalks
pub mod PatchNumbers
pub mod PatchesAdded
pub mod PatchesNumbered
use azldev.Prelude.{
  ℕ, zero, suc, ◌+◌, ◌*◌, ◌-◌, List, [], ◌∷◌, ◌++◌, Bool, true, false, ◌&&◌, ◌||◌, not, Option,
  some, none,
}
use azldev.Prelude.{
  Error, new, wrap, if◌then◌else◌, length, ltb, leb, ◌=?◌, ℤ, pos, negsuc, Result, ok, err,
}
use azldev.Text.{Text, ◌==◌, codes, to_lower, trim_space}
use azldev.Spec.Parsed.{SectionTarget, ParsedLine, section_start_line, tag_line, raw_line}
use azldev.Spec.Visit.{
  Target, spec_start, section_start, section_end, spec_end, section_line, Context, Visitor, Visited,
  returned, out_of_fuel, visit, insert_lines_before, insert_lines_after, remove_current,
  replace_current,
}

-- How an operation on a spec ends: its error, and the lines it leaves.
pub data Edited : Type 0 where
  edited : Option Error → List Text → Edited
  unfinished : Edited

-- Rounds for a visit of n lines that inserts at most k lines in each call: the visited lines, each
-- with the rounds that parse again what was inserted before it.
unfoldable pub visit_fuel : ℕ → ℕ → ℕ
visit_fuel n k = suc n * (k + 3) + 1

abbrev pub no_such_tag : Error
no_such_tag = new "no such tag"

abbrev pub section_not_found : Error
section_not_found = new "section not found"

abbrev pub pattern_not_found : Error
pattern_not_found = new "pattern not found"

-- `if !updated { return ... }; return err`, for a visit that keeps `updated`.
unfoldable pub if_updated : Error → Visited Bool → Edited
if_updated e out_of_fuel = unfinished
if_updated e (returned failed ctx updated) = edited (if updated then failed else some e) ctx.lines

abbrev pub in_section : Text → Text → SectionTarget → Bool
in_section section_name package_name section =
    section.sect_name == section_name && section.package_name == package_name

module _ {S : Type 0} where
  -- A visitor that does nothing but at the end of a section.
  unfoldable pub at_section_end : Target → Visitor S → Visitor S
  at_section_end section_end body ctx s = body ctx s
  at_section_end section_start body ctx s = (none, ctx, s)
  at_section_end spec_start body ctx s = (none, ctx, s)
  at_section_end spec_end body ctx s = (none, ctx, s)
  at_section_end (section_line text parsed) body ctx s = (none, ctx, s)

  -- A visitor that does nothing but at a line of a section.
  unfoldable pub at_section_line : Target → (Text → ParsedLine → Visitor S) → Visitor S
  at_section_line (section_line text parsed) body ctx s = body text parsed ctx s
  at_section_line section_end body ctx s = (none, ctx, s)
  at_section_line section_start body ctx s = (none, ctx, s)
  at_section_line spec_start body ctx s = (none, ctx, s)
  at_section_line spec_end body ctx s = (none, ctx, s)

-- The visitor of PrependLinesToSection.
unfoldable pub prepend_visitor : Text → Text → List Text → Visitor Bool
prepend_visitor section_name package_name lines ctx updated = elim ctx.target [
  | section_start ↦
      if in_section section_name package_name ctx.current_section
      then (
        none,
        (if ctx.current_section.sect_name == [] && ctx.current_section.package_name == []
            then insert_lines_before lines ctx
            else insert_lines_after lines ctx),
        true,
      )
      else (none, ctx, updated)
  | _ ↦ (none, ctx, updated)
]

-- PrependLinesToSection
unfoldable pub prepend_lines_to_section : Text → Text → List Text → List Text → Edited
prepend_lines_to_section section_name package_name lines spec =
    if_updated (wrap "section %#q (package=%#q) not found:\n%w" section_not_found) (
      visit (prepend_visitor section_name package_name lines)
        (visit_fuel (length spec) (length lines)) spec false)

-- The visitor of AppendLinesToSection, at the end of a section.
unfoldable pub append_at_end : Text → Text → List Text → Visitor Bool
append_at_end section_name package_name lines ctx updated =
    if in_section section_name package_name ctx.current_section
    then (none, insert_lines_before lines ctx, true)
    else (none, ctx, updated)

-- The visitor of AppendLinesToSection.
unfoldable pub append_visitor : Text → Text → List Text → Visitor Bool
append_visitor section_name package_name lines ctx =
    at_section_end ctx.target (append_at_end section_name package_name lines) ctx

-- AppendLinesToSection
unfoldable pub append_lines_to_section : Text → Text → List Text → List Text → Edited
append_lines_to_section section_name package_name lines spec =
    if_updated (wrap "section %#q (package=%#q) not found:\n%w" section_not_found) (
      visit (append_visitor section_name package_name lines)
        (visit_fuel (length spec) (length lines)) spec false)

-- PrependLines and AppendLines
unfoldable pub prepend_lines : List Text → List Text → List Text
prepend_lines lines spec = lines ++ spec

unfoldable pub append_lines : List Text → List Text → List Text
append_lines lines spec = spec ++ lines

-- Whether the visitor of HasSection has found the section after a call.
unfoldable pub found_at : Target → Text → SectionTarget → Bool → Bool
found_at section_start section_name section found = found || section.sect_name == section_name
found_at section_end section_name section found = found
found_at spec_start section_name section found = found
found_at spec_end section_name section found = found
found_at (section_line text parsed) section_name section found = found

-- The visitor of HasSection, which has no error.
unfoldable pub has_section_visitor : Text → Visitor Bool
has_section_visitor section_name ctx found =
    (none, ctx, found_at ctx.target section_name ctx.current_section found)

-- HasSection; `none` is no result within the fuel.
unfoldable pub has_section : Text → List Text → Option Bool
has_section section_name spec =
    elim (visit (has_section_visitor section_name) (visit_fuel (length spec) 0) spec false) [
      | out_of_fuel ↦ none
      | returned failed ctx found ↦ some found
    ]

module _ (replace_all : Text → Text) where
  -- The visitor of SearchAndReplace at a line, for a compiled regular expression and a replacement.
  unfoldable pub replace_in_line : Text → Text → Text → ParsedLine → Visitor Bool
  replace_in_line section_name package_name text parsed ctx updated =
      if (section_name == [] || ctx.current_section.sect_name == section_name)
        && (package_name == [] || ctx.current_section.package_name == package_name)
        && not (text == replace_all text)
      then (none, replace_current (replace_all text) ctx, true)
      else (none, ctx, updated)

  -- The visitor of SearchAndReplace.
  unfoldable pub search_visitor : Text → Text → Visitor Bool
  search_visitor section_name package_name ctx =
      at_section_line ctx.target (replace_in_line section_name package_name) ctx

  -- SearchAndReplace, after the regular expression was compiled
  unfoldable pub search_and_replace : Text → Text → List Text → Edited
  search_and_replace section_name package_name spec =
      if_updated (wrap "pattern %#q not found (section=%#q, package=%#q):\n%w" pattern_not_found)
        (visit (search_visitor section_name package_name) (visit_fuel (length spec) 0) spec false)

-- The visitor of AddChangelogEntry, for the lines of the entry.
unfoldable pub changelog_visitor : List Text → Visitor Bool
changelog_visitor lines ctx updated = elim ctx.target [
  | section_start ↦
      if ctx.current_section.sect_name == codes "%changelog"
      then (none, insert_lines_after lines ctx, true)
      else (none, ctx, updated)
  | _ ↦ (none, ctx, updated)
]

dashed : List Text → List Text
dashed [] = [] ∷ []
dashed (detail ∷ details) = (codes "- " ++ detail) ∷ dashed details

-- The lines of an entry, for a formatted date.
unfoldable pub changelog_entry : Text → Text → Text → Text → Text → List Text → List Text
unfolding dashed
changelog_entry date user email version release details =
    (codes "* "
      ++ (date
          ++ (codes " "
              ++ (user
                  ++ (codes " <"
                      ++ (email ++ (codes "> - " ++ (version ++ (codes "-" ++ release)))))))))
    ∷ dashed details

-- AddChangelogEntry
unfoldable pub add_changelog_entry :
    Text → Text → Text → Text → Text → List Text → List Text → Edited
add_changelog_entry date user email version release details spec =
    let lines = changelog_entry date user email version release details in
    if_updated (new "existing changelog section could not be found")
      (visit (changelog_visitor lines) (visit_fuel (length spec) (length lines)) spec false)
