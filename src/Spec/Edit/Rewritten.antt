-- ===== src/Spec/Edit/Rewritten.antt =====
-- internal/rpm/spec/edit.go: UpdateExistingTag and SearchAndReplace on a whole spec.
use azldev.Prelude.{
  ℕ, zero, suc, ◌<◌, List, [], ◌∷◌, Bool, true, false, not, ◌&&◌, ◌||◌, Option, none, Error, ◌≡◌,
  refl, arith, wrap,
}
use azldev.Prelude.{inl, inr, ◌⊎◌, length, subst, sym, if◌then◌else◌}
use azldev.Text.{Text, ◌==◌, to_lower}
use azldev.Spec.Parsed.{ParsedLine, section_start_line, tag_line, raw_line}
use azldev.Spec.Visit.{Context, Visitor, visit, replace_current, replace_line}
use azldev.Spec.Visit.Moves.{Inserts, Stays, Removes, Ready, context_of}
use azldev.Spec.Visit.Ends.{visit-Returns}
use azldev.Spec.Edit.{
  no_such_tag, pattern_not_found, visit_fuel, if_updated, at_section_line, replace_in_line,
  search_visitor, search_and_replace,
}
use azldev.Spec.Edit.Tags.{
  at_tag, in_package, visit_tags, visit_tags_package, update_visitor, update_existing_tag, tag_text,
}
use azldev.Spec.Edit.Calls.{replace_current-Inserts}
use azldev.Spec.Edit.Outcomes.{Changer, Keeps, at_section_line-Moves}
use azldev.Spec.Edit.Appended.{Outcome, Updating, if_updated-Outcome}

-- Line by line, the second lines are the first ones, or new ones of a kind.
abbrev pub Rewritten : (Text → Type 0) → List Text → List Text → Type 0
Rewritten New [] [] = Unit
Rewritten New [] (y ∷ ys) = ⊥
Rewritten New (x ∷ xs) [] = ⊥
Rewritten New (x ∷ xs) (y ∷ ys) = ((x ≡ y) ⊎ New y) × Rewritten New xs ys

Rewritten-refl : (New : Text → Type 0) (xs : List Text) → Rewritten New xs xs
Rewritten-refl New [] = tt
Rewritten-refl New (x ∷ xs) = (inl refl, Rewritten-refl New xs)

Rewritten-replace_line :
    (New : Text → Type 0) (xs ys : List Text) (n : ℕ) (line : Text)
    → New line
    → n < length ys
    → Rewritten New xs ys
    → Rewritten New xs (replace_line ys n line)
unfolding replace_line
Rewritten-replace_line New xs [] n line new ready h = ground arith
Rewritten-replace_line New [] (y ∷ ys) n line new ready h = elim h [ ]
Rewritten-replace_line New (x ∷ xs) (y ∷ ys) zero line new ready (here, rest) = (inr new, rest)
Rewritten-replace_line New (x ∷ xs) (y ∷ ys) (suc n) line new ready (here, rest) =
    (here, Rewritten-replace_line New xs ys n line new (omega (arith, ready)) rest)

module _ (New : Text → Type 0) (spec : List Text) where
  abbrev Updates : Option Error → List Text → Bool → Type 0
  Updates = Updating (Rewritten New spec) spec

  -- A call of a visitor leaves the context, or replaces its line.
  abbrev Replaces : Context → Bool → Option Error × Context × Bool → Type 0
  Replaces ctx updated out =
      (out ≡ (none, ctx, updated))
      ⊎ ((line : Text) × New line × (out ≡ (none, replace_current line ctx, true)))

  replaced-Updates :
      (line : Text) (ctx : Context) (updated : Bool)
      → New line
      → Ready ctx
      → Updates none ctx.lines updated
      → Updates none (replace_current line ctx).lines true
  unfolding replace_current
  replaced-Updates line ctx false new ready (ok, same) = (
    refl,
    Rewritten-replace_line New spec ctx.lines ctx.current_line_num line new ready
        (subst (Rewritten New spec) (sym same) (Rewritten-refl New spec)),
  )
  replaced-Updates line ctx true new ready (ok, kept) =
      (refl, Rewritten-replace_line New spec ctx.lines ctx.current_line_num line new ready kept)

  abbrev Moved : Context → Option Error × Context × Bool → Type 0
  Moved ctx out =
      Stays ctx (context_of out) ⊎ Inserts 0 ctx (context_of out) ⊎ Removes ctx (context_of out)

  Replaces-Changer :
      (body : Text → ParsedLine → Visitor Bool)
      → ((text : Text) (parsed : ParsedLine) (ctx : Context) (updated : Bool)
          → Replaces ctx updated (body text parsed ctx updated))
      → Changer 0 Updates body
  Replaces-Changer body replaces = record {
    change = λ text parsed ctx updated ready. elim (replaces text parsed ctx updated) [
      | inl e ↦ subst (Moved ctx) (sym e) (inl (refl, refl, refl, refl))
      | inr (line, new, e) ↦
          subst (Moved ctx) (sym e) (inr (inl (replace_current-Inserts 0 line ctx ready)))
    ];
    keeps_line = λ text parsed ctx updated ready holds. elim (replaces text parsed ctx updated) [
      | inl e ↦ subst (Keeps 0 Updates ctx) (sym e) holds
      | inr (line, new, e) ↦
          subst (Keeps 0 Updates ctx) (sym e) (replaced-Updates line ctx updated new ready holds)
    ];
  }

  Replaces-Outcome :
      (body : Text → ParsedLine → Visitor Bool) (not_found : Error)
      → ((text : Text) (parsed : ParsedLine) (ctx : Context) (updated : Bool)
          → Replaces ctx updated (body text parsed ctx updated))
      → Outcome (Rewritten New spec) spec (
          if_updated not_found (
            visit
              (λ ctx s. at_section_line ctx.target body ctx s)
              (visit_fuel (length spec) 0)
              spec
              false))
  unfolding visit_fuel
  Replaces-Outcome body not_found replaces =
      let visitor = λ (ctx : Context) (s : Bool). at_section_line ctx.target body ctx s in
      let (failed, ctx, updated, e, holds) =
        visit-Returns 0 Updates visitor
          (at_section_line-Moves 0 Updates body (Replaces-Changer body replaces))
          (visit_fuel (length spec) 0) spec false (omega arith) (refl, refl) in
      subst (λ out. Outcome (Rewritten New spec) spec (if_updated not_found out)) (sym e)
        (if_updated-Outcome (Rewritten New spec) spec not_found failed ctx updated holds)

  -- A visitor that replaces the line under a condition.
  if-Replaces :
      (ctx : Context) (updated : Bool) (line : Text) (condition : Bool)
      → New line
      → Replaces ctx updated
          (if condition then (none, replace_current line ctx, true) else (none, ctx, updated))
  if-Replaces ctx updated line true new = inr (line, new, refl)
  if-Replaces ctx updated line false new = inl refl

  if_here-Replaces :
      (ctx : Context) (updated condition : Bool) (out : Option Error × Context × Bool)
      → Replaces ctx updated out
      → Replaces ctx updated (if condition then out else (none, ctx, updated))
  if_here-Replaces ctx updated true out h = h
  if_here-Replaces ctx updated false out h = inl refl

tag_Replaces :
    (package_name tag value : Text) (spec : List Text) (text : Text) (parsed : ParsedLine)
    (ctx : Context) (updated : Bool)
    → Replaces
        (λ line. line ≡ tag_text tag value)
        spec
        ctx
        updated
        (at_tag (in_package package_name (update_visitor tag value)) text parsed ctx updated)
unfolding at_tag in_package update_visitor
tag_Replaces package_name tag value spec text (section_start_line kind name tokens) ctx updated =
    inl refl
tag_Replaces package_name tag value spec text (raw_line content) ctx updated = inl refl
tag_Replaces package_name tag value spec text (tag_line found_tag found_value) ctx updated =
    if_here-Replaces (λ line. line ≡ tag_text tag value) spec ctx updated
      (ctx.current_section.package_name == package_name)
      (update_visitor tag value found_tag found_value ctx updated)
      (if-Replaces (λ line. line ≡ tag_text tag value) spec ctx updated (tag_text tag value)
        (to_lower found_tag == to_lower tag) refl)

-- UpdateExistingTag ends for every spec: with an error and the spec as it was, or without one, and then
-- each line is the one that was there, or the text of the tag with its value.
pub update_existing_tag-Outcome :
    (package_name tag value : Text) (spec : List Text)
    → Outcome
        (Rewritten (λ line. line ≡ tag_text tag value) spec)
        spec
        (update_existing_tag package_name tag value spec)
unfolding update_existing_tag visit_tags_package visit_tags
update_existing_tag-Outcome package_name tag value spec =
    Replaces-Outcome (λ line. line ≡ tag_text tag value) spec
      (at_tag (in_package package_name (update_visitor tag value)))
      (wrap "tag %#q not found in spec:\n%w" no_such_tag) (tag_Replaces package_name tag value spec)

module _ (replace_all : Text → Text) where
  -- SearchAndReplace ends for every spec and every replacement: with an error and the spec as it was, or
  -- without one, and then each line is the one that was there, or the replacement of a text.
  pub search_and_replace-Outcome :
      (section_name package_name : Text) (spec : List Text)
      → Outcome
          (Rewritten (λ line. (text : Text) × (line ≡ replace_all text)) spec)
          spec
          (search_and_replace replace_all section_name package_name spec)
  unfolding search_and_replace search_visitor replace_in_line
  search_and_replace-Outcome section_name package_name spec =
      Replaces-Outcome (λ line. (text : Text) × (line ≡ replace_all text)) spec
        (replace_in_line replace_all section_name package_name)
        (wrap "pattern %#q not found (section=%#q, package=%#q):\n%w" pattern_not_found)
        (λ text parsed ctx updated.
          if-Replaces (λ line. (text : Text) × (line ≡ replace_all text)) spec ctx updated
            (replace_all text)
            ((section_name == [] || ctx.current_section.sect_name == section_name)
              && (package_name == [] || ctx.current_section.package_name == package_name)
              && not (text == replace_all text))
            (text, refl))
