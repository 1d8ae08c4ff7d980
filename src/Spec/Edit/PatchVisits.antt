-- ===== src/Spec/Edit/PatchVisits.antt =====
-- internal/rpm/spec/edit.go: the two visits of RemovePatchEntry.
use azldev.Prelude.{
  ℕ, ◌+◌, List, [], Bool, true, false, not, ◌&&◌, Option, some, none, Error, ◌≡◌, refl, arith, wrap,
}
use azldev.Prelude.{inl, inr, ◌⊎◌, length, subst, sym, ap, if◌then◌else◌, Result, ok, err, ℤ}
use azldev.Text.{Text, ◌==◌, codes, trim_space}
use azldev.Spec.Parsed.{ParsedLine, section_start_line, tag_line, raw_line}
use azldev.Spec.Visit.{Context, Visitor, visit, remove_current}
use azldev.Spec.Visit.Moves.{Inserts, Stays, Removes, Ready, context_of}
use azldev.Spec.Visit.Ends.{visit-Returns}
use azldev.Spec.Edit.{visit_fuel, at_section_line}
use azldev.Spec.Edit.Tags.{at_tag, visit_tags, Removed, removed, removed_of}
use azldev.Spec.Edit.Patches.{
  parse_patch_tag_number, remove_if_matching, patch_tag_visitor, remove_patch_tags_matching,
  patchlist_line, patchlist_visitor, remove_patchlist_entries_matching,
}
use azldev.Spec.Edit.Calls.{remove_current-Removes, length-remove_line}
use azldev.Spec.Edit.Outcomes.{Changer, Keeps, at_section_line-Moves}
use azldev.Spec.Edit.Outcomes.Subsequence.{Subsequence, Subsequence-refl, Subsequence-remove}

module _ (spec : List Text) where
  -- The lines that are left after n removals, also when the last call failed.
  abbrev pub Left : Option Error → List Text → ℕ → Type 0
  Left failed lines n = Subsequence lines spec × (length lines + n ≡ length spec)

  -- A call of a visitor leaves the lines, and may fail, or removes its line.
  abbrev Removing : Context → ℕ → Option Error × Context × ℕ → Type 0
  Removing ctx n out =
      ((failed : Option Error) × (out ≡ (failed, ctx, n)))
      ⊎ (out ≡ (none, remove_current ctx, n + 1))

  removed-Left :
      (ctx : Context) (n : ℕ)
      → Ready ctx
      → Left none ctx.lines n
      → Left none (remove_current ctx).lines (n + 1)
  unfolding remove_current
  removed-Left ctx n ready (kept, e) = (
    Subsequence-remove ctx.lines spec ctx.current_line_num kept,
    omega (arith, length-remove_line ctx.lines ctx.current_line_num ready, e),
  )

  abbrev Moved : Context → Option Error × Context × ℕ → Type 0
  Moved ctx out =
      Stays ctx (context_of out) ⊎ Inserts 0 ctx (context_of out) ⊎ Removes ctx (context_of out)

  Removing-Changer :
      (body : Text → ParsedLine → Visitor ℕ)
      → ((text : Text) (parsed : ParsedLine) (ctx : Context) (n : ℕ)
          → Removing ctx n (body text parsed ctx n))
      → Changer 0 Left body
  Removing-Changer body removing = record {
    change = λ text parsed ctx n ready. elim (removing text parsed ctx n) [
      | inl (failed, e) ↦ subst (Moved ctx) (sym e) (inl (refl, refl, refl, refl))
      | inr e ↦ subst (Moved ctx) (sym e) (inr (inr (remove_current-Removes ctx ready)))
    ];
    keeps_line = λ text parsed ctx n ready holds. elim (removing text parsed ctx n) [
      | inl (failed, e) ↦ subst (Keeps 0 Left ctx) (sym e) holds
      | inr e ↦ subst (Keeps 0 Left ctx) (sym e) (removed-Left ctx n ready holds)
    ];
  }

  -- How such a visit ends.
  abbrev pub Ended : Removed → Type 0
  Ended out =
      (failed : Option Error) × (n : ℕ) × (lines : List Text) × (out ≡ removed failed n lines)
      × Left failed lines n

  Removing-Ended :
      (body : Text → ParsedLine → Visitor ℕ)
      → ((text : Text) (parsed : ParsedLine) (ctx : Context) (n : ℕ)
          → Removing ctx n (body text parsed ctx n))
      → Ended (
          removed_of (
            visit
              (λ ctx s. at_section_line ctx.target body ctx s)
              (visit_fuel (length spec) 0)
              spec
              0))
  unfolding visit_fuel removed_of
  Removing-Ended body removing =
      let visitor = λ (ctx : Context) (n : ℕ). at_section_line ctx.target body ctx n in
      let (failed, ctx, n, e, holds) =
        visit-Returns 0 Left visitor
          (at_section_line-Moves 0 Left body (Removing-Changer body removing))
          (visit_fuel (length spec) 0) spec 0 (omega arith) (Subsequence-refl spec, omega arith) in
      (failed, n, ctx.lines, ap removed_of e, holds)

  module _ (match : Text → Result Bool) where
    abbrev by_match : Result Bool → Text → Context → ℕ → Option Error × Context × ℕ
    by_match result value ctx n = elim result [
      | err e ↦ (some (wrap "failed to match glob pattern %#q against %#q:\n%w" e), ctx, n)
      | ok false ↦ (none, ctx, n)
      | ok true ↦ (none, remove_current ctx, n + 1)
    ]

    by_match-Removing :
        (result : Result Bool) (value : Text) (ctx : Context) (n : ℕ)
        → Removing ctx n (by_match result value ctx n)
    by_match-Removing (err e) value ctx n = inl (_, refl)
    by_match-Removing (ok false) value ctx n = inl (none, refl)
    by_match-Removing (ok true) value ctx n = inr refl

    remove_if_matching-Removing :
        (value : Text) (ctx : Context) (n : ℕ)
        → Removing ctx n (remove_if_matching match value ctx n)
    unfolding remove_if_matching
    remove_if_matching-Removing value ctx n = by_match-Removing (match value) value ctx n

    patch_tag-Removing :
        (text : Text) (parsed : ParsedLine) (ctx : Context) (n : ℕ)
        → Removing ctx n (at_tag (patch_tag_visitor match) text parsed ctx n)
    unfolding at_tag patch_tag_visitor
    patch_tag-Removing text (section_start_line kind name tokens) ctx n = inl (none, refl)
    patch_tag-Removing text (raw_line content) ctx n = inl (none, refl)
    patch_tag-Removing text (tag_line tag value) ctx n = by_number (parse_patch_tag_number tag)
      where
        by_number :
            (number : Option ℤ)
            → Removing ctx n (elim number as (λ _. Option Error × Context × ℕ) [
              | none ↦ (none, ctx, n)
              | some number' ↦ remove_if_matching match value ctx n
            ])
        by_number none = inl (none, refl)
        by_number (some number) = remove_if_matching-Removing value ctx n

    patchlist_line-Removing :
        (text : Text) (parsed : ParsedLine) (ctx : Context) (n : ℕ)
        → Removing ctx n (patchlist_line match text parsed ctx n)
    unfolding patchlist_line
    patchlist_line-Removing text parsed ctx n =
        here (ctx.current_section.sect_name == codes "%patchlist" && not (trim_space text == []))
      where
        here :
            (test : Bool)
            → Removing ctx n
                (if test then remove_if_matching match (trim_space text) ctx n else (none, ctx, n))
        here true = remove_if_matching-Removing (trim_space text) ctx n
        here false = inl (none, refl)

    pub remove_patch_tags_matching-Ended : Ended (remove_patch_tags_matching match spec)
    unfolding remove_patch_tags_matching visit_tags
    remove_patch_tags_matching-Ended =
        Removing-Ended (at_tag (patch_tag_visitor match)) patch_tag-Removing

    pub remove_patchlist_entries_matching-Ended :
        Ended (remove_patchlist_entries_matching match spec)
    unfolding remove_patchlist_entries_matching patchlist_visitor
    remove_patchlist_entries_matching-Ended =
        Removing-Ended (patchlist_line match) patchlist_line-Removing
