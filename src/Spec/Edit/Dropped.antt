-- ===== src/Spec/Edit/Dropped.antt =====
-- internal/rpm/spec/edit.go: the edits that remove lines of tags or of a %patchlist, on a whole spec.
use azldev.Prelude.{
  ℕ, zero, suc, ◌+◌, ◌<◌, List, Bool, true, false, Option, some, none, Error, ◌≡◌, refl, arith,
  wrap,
}
use azldev.Prelude.{inl, inr, ◌⊎◌, length, subst, sym, ap, ◌∙◌, if◌then◌else◌, ◌=?◌}
use azldev.Text.{Text, ◌==◌}
use azldev.Spec.Parsed.{ParsedLine, section_start_line, tag_line, raw_line}
use azldev.Spec.Visit.{Context, Visitor, visit, remove_current, remove_line}
use azldev.Spec.Visit.Moves.{Inserts, Stays, Removes, Ready, context_of}
use azldev.Spec.Visit.Ends.{visit-Returns}
use azldev.Spec.Edit.{Edited, edited, unfinished, no_such_tag, visit_fuel, at_section_line}
use azldev.Spec.Edit.Tags.{
  at_tag, in_package, visit_tags, visit_tags_package, remove_visitor, remove_tags_matching,
  tag_matcher, remove_tag, Removed, removed, removed_of, not_removed,
}
use azldev.Spec.Edit.Calls.{remove_current-Removes, length-remove_line}
use azldev.Spec.Edit.Outcomes.{Changer, Keeps, at_section_line-Moves}
use azldev.Spec.Edit.Outcomes.Subsequence.{Subsequence, Subsequence-refl, Subsequence-remove}
use azldev.Spec.Edit.Appended.{Outcome}

module _ (spec : List Text) where
  -- The lines that are left after n removals, without an error.
  abbrev pub Drops : Option Error → List Text → ℕ → Type 0
  Drops failed lines zero = (failed ≡ none) × (lines ≡ spec)
  Drops failed lines (suc n) =
      (failed ≡ none) × Subsequence lines spec × (length lines + suc n ≡ length spec)

  -- A call of a visitor leaves the context, or removes its line.
  abbrev Removing : Context → ℕ → Option Error × Context × ℕ → Type 0
  Removing ctx n out = (out ≡ (none, ctx, n)) ⊎ (out ≡ (none, remove_current ctx, n + 1))

  removed-Drops :
      (ctx : Context) (n : ℕ)
      → Ready ctx
      → Drops none ctx.lines n
      → Drops none (remove_current ctx).lines (n + 1)
  unfolding remove_current
  removed-Drops ctx n ready holds =
      subst (Drops none (remove_line ctx.lines ctx.current_line_num)) {x = suc n} (omega arith)
        (removed_suc n holds)
    where
      removed_suc :
          (n : ℕ)
          → Drops none ctx.lines n
          → Drops none (remove_line ctx.lines ctx.current_line_num) (suc n)
      removed_suc zero (ok, same) = (
        refl,
        Subsequence-remove ctx.lines spec ctx.current_line_num
            (subst (λ lines. Subsequence lines spec) (sym same) (Subsequence-refl spec)),
        omega (arith, length-remove_line ctx.lines ctx.current_line_num ready, ap length same),
      )
      removed_suc (suc n) (ok, kept, e) = (
        refl,
        Subsequence-remove ctx.lines spec ctx.current_line_num kept,
        omega (arith, length-remove_line ctx.lines ctx.current_line_num ready, e),
      )

  abbrev Moved : Context → Option Error × Context × ℕ → Type 0
  Moved ctx out =
      Stays ctx (context_of out) ⊎ Inserts 0 ctx (context_of out) ⊎ Removes ctx (context_of out)

  Removing-Changer :
      (body : Text → ParsedLine → Visitor ℕ)
      → ((text : Text) (parsed : ParsedLine) (ctx : Context) (n : ℕ)
          → Removing ctx n (body text parsed ctx n))
      → Changer 0 Drops body
  Removing-Changer body removing = record {
    change = λ text parsed ctx n ready. elim (removing text parsed ctx n) [
      | inl e ↦ subst (Moved ctx) (sym e) (inl (refl, refl, refl, refl))
      | inr e ↦ subst (Moved ctx) (sym e) (inr (inr (remove_current-Removes ctx ready)))
    ];
    keeps_line = λ text parsed ctx n ready holds. elim (removing text parsed ctx n) [
      | inl e ↦ subst (Keeps 0 Drops ctx) (sym e) holds
      | inr e ↦ subst (Keeps 0 Drops ctx) (sym e) (removed-Drops ctx n ready holds)
    ];
  }

  -- The end of a visit that removes lines.
  pub Removing-Drops :
      (body : Text → ParsedLine → Visitor ℕ)
      → ((text : Text) (parsed : ParsedLine) (ctx : Context) (n : ℕ)
          → Removing ctx n (body text parsed ctx n))
      → (lines : List Text) × (n : ℕ) × (removed_of (
            visit
              (λ ctx s. at_section_line ctx.target body ctx s)
              (visit_fuel (length spec) 0)
              spec
              0)
          ≡ removed none n lines)
        × Drops none lines n
  unfolding visit_fuel removed_of
  Removing-Drops body removing =
      let visitor = λ (ctx : Context) (n : ℕ). at_section_line ctx.target body ctx n in
      let (failed, ctx, n, e, holds) =
        visit-Returns 0 Drops visitor
          (at_section_line-Moves 0 Drops body (Removing-Changer body removing))
          (visit_fuel (length spec) 0) spec 0 (omega arith) (refl, refl) in
      let ok = succeeds failed ctx.lines n holds in
      (
        ctx.lines,
        n,
        ap removed_of e ∙ ap (λ f. removed f n ctx.lines) ok,
        subst (λ f. Drops f ctx.lines n) ok holds,
      )
    where
      succeeds :
          (failed : Option Error) (lines : List Text) (n : ℕ) → Drops failed lines n → failed ≡ none
      succeeds failed lines zero (ok, same) = ok
      succeeds failed lines (suc n) (ok, kept, e) = ok

  tag_Removing :
      (package_name : Text) (matcher : Text → Text → Bool) (text : Text) (parsed : ParsedLine)
      (ctx : Context) (n : ℕ)
      → Removing ctx n (at_tag (in_package package_name (remove_visitor matcher)) text parsed ctx n)
  unfolding at_tag in_package remove_visitor
  tag_Removing package_name matcher text (section_start_line kind name tokens) ctx n = inl refl
  tag_Removing package_name matcher text (raw_line content) ctx n = inl refl
  tag_Removing package_name matcher text (tag_line tag value) ctx n =
      two_tests (ctx.current_section.package_name == package_name) (matcher tag value) ctx n
    where
      two_tests :
          (here matches : Bool) (ctx : Context) (n : ℕ)
          → Removing ctx n (
              if here
              then if matches then (none, remove_current ctx, n + 1) else (none, ctx, n)
              else (none, ctx, n))
      two_tests true true ctx n = inr refl
      two_tests true false ctx n = inl refl
      two_tests false matches ctx n = inl refl

  abbrev pub Fewer : List Text → Type 0
  Fewer spec' = Subsequence spec' spec × (length spec' < length spec)

  abbrev not_found : Error
  not_found = wrap "tag %#q with value %#q not found in spec:\n%w" no_such_tag

  abbrev ended : Removed → Edited
  ended out = elim out [
    | not_removed ↦ unfinished
    | removed (some e) n lines ↦ edited (some e) lines
    | removed none n lines ↦ edited (if n =? 0 then some not_found else none) lines
  ]

  ended-Outcome :
      (n : ℕ) (lines : List Text)
      → Drops none lines n
      → Outcome Fewer spec (ended (removed none n lines))
  ended-Outcome zero lines (ok, same) = inl (not_found, ap (edited (some not_found)) same)
  ended-Outcome (suc n) lines (ok, kept, e) = inr (lines, ground arith, (kept, omega (arith, e)))

  -- RemoveTag ends for every spec: with an error and the spec as it was, or without one, and then fewer
  -- lines are left, which are lines of the spec in their order.
  pub remove_tag-Outcome :
      (equal_fold : Text → Text → Bool) (package_name tag value : Text)
      → Outcome Fewer spec (remove_tag equal_fold package_name tag value spec)
  unfolding remove_tag remove_tags_matching visit_tags_package visit_tags
  remove_tag-Outcome equal_fold package_name tag value =
      let matcher = tag_matcher equal_fold tag value in
      let (lines, n, e, drops) =
        Removing-Drops (at_tag (in_package package_name (remove_visitor matcher)))
          (tag_Removing package_name matcher) in
      subst (λ out. Outcome Fewer spec (ended out)) (sym e) (ended-Outcome n lines drops)
