-- ===== src/Spec/Edit/PatchesRemoved.antt =====
-- internal/rpm/spec/edit.go: RemovePatchEntry on a whole spec.
use azldev.Prelude.{
  ℕ, zero, suc, ◌+◌, ◌<◌, List, Bool, true, false, Option, some, none, Error, ◌≡◌, refl, arith,
  wrap, new,
}
use azldev.Prelude.{length, subst, sym, ap, Result}
use azldev.Text.{Text, codes}
use azldev.Spec.Edit.Patches.{}
use azldev.Spec.Visit.{Context, Visited, returned, out_of_fuel}
use azldev.Spec.Visit.Readers.{visit-Read}
use azldev.Spec.Edit.{
  Edited, edited, unfinished, visit_fuel, has_section, has_section_visitor, found_at,
}
use azldev.Spec.Edit.Tags.{Removed, removed, not_removed}
use azldev.Spec.Edit.Patches.{
  remove_patchlist_entries_matching, patches_removed, remove_patch_entry,
}
use azldev.Spec.Edit.PatchVisits.{
  Left, remove_patch_tags_matching-Ended, remove_patchlist_entries_matching-Ended,
}
use azldev.Spec.Edit.Outcomes.Subsequence.{Subsequence, Subsequence-trans}

has_section_visitor-reads :
    (name : Text) (ctx : Context) (found : Bool)
    → has_section_visitor name ctx found
      ≡ (none, ctx, found_at ctx.target name ctx.current_section found)
unfolding has_section_visitor
has_section_visitor-reads name ctx found = refl

abbrev found_of : Visited Bool → Option Bool
found_of out_of_fuel = none
found_of (returned failed ctx found) = some found

-- HasSection ends for every spec.
pub has_section-some :
    (name : Text) (spec : List Text) → (found : Bool) × (has_section name spec ≡ some found)
unfolding has_section visit_fuel
has_section-some name spec =
    let (ctx, found, e, _, _) =
      visit-Read (has_section_visitor name)
        (λ ctx found. found_at ctx.target name ctx.current_section found)
        (has_section_visitor-reads name) (λ n s. Unit) (λ ctx s h. tt) (λ n s h. tt)
        (visit_fuel (length spec) 0) spec false tt (omega arith) in
    (found, ap found_of e)

module _ (match : Text → Result Bool) (spec : List Text) where
  -- How RemovePatchEntry ends: what is left are lines of the spec in their order, and fewer of them
  -- unless there was an error.
  abbrev pub Patched : Edited → Type 0
  Patched out =
      (failed : Option Error) × (spec' : List Text) × (out ≡ edited failed spec')
      × Subsequence spec' spec
      × (failed ≡ none → length spec' < length spec)

  patches_removed-Patched :
      (total : ℕ) (lines : List Text)
      → Subsequence lines spec
      → length lines + total ≡ length spec
      → Patched (patches_removed match total lines)
  unfolding patches_removed
  patches_removed-Patched zero lines kept e = (
    some (new "no patches matching %#q found in spec"),
    lines,
    ground arith,
    kept,
    λ ok. ground arith,
  )
  patches_removed-Patched (suc n) lines kept e =
      (none, lines, ground arith, kept, λ ok. omega (arith, e))

  -- The removal of the entries of a %patchlist, after n tags.
  abbrev pub then_entries : ℕ → Removed → Edited
  then_entries n out = elim out [
    | not_removed ↦ unfinished
    | removed (some e) m lines' ↦
        edited (some (wrap "failed to remove matching patchlist entries:\n%w" e)) lines'
    | removed none m lines' ↦ patches_removed match (n + m) lines'
  ]

  entries-Patched :
      (n m : ℕ) (failed : Option Error) (lines lines' : List Text)
      → Subsequence lines spec
      → length lines + n ≡ length spec
      → Left lines failed lines' m
      → Patched (then_entries n (removed failed m lines'))
  entries-Patched n m (some e) lines lines' kept h (kept', h') =
      (_, lines', refl, Subsequence-trans lines' lines spec kept' kept, λ ok. ground arith)
  entries-Patched n m none lines lines' kept h (kept', h') =
      patches_removed-Patched (n + m) lines' (Subsequence-trans lines' lines spec kept' kept)
        (omega (arith, h, h'))

  -- The rest of RemovePatchEntry, once it is known whether there is a %patchlist.
  abbrev pub by_patchlist : ℕ → List Text → Option Bool → Edited
  by_patchlist n lines found = elim found [
    | none ↦ unfinished
    | some false ↦ patches_removed match n lines
    | some true ↦ then_entries n (remove_patchlist_entries_matching match lines)
  ]

  by_patchlist-Patched :
      (n : ℕ) (lines : List Text) (found : Bool)
      → Subsequence lines spec
      → length lines + n ≡ length spec
      → Patched (by_patchlist n lines (some found))
  by_patchlist-Patched n lines false kept h = patches_removed-Patched n lines kept h
  by_patchlist-Patched n lines true kept h =
      let (failed, m, lines', e, left) = remove_patchlist_entries_matching-Ended lines match in
      subst (λ out. Patched (then_entries n out)) (sym e)
        (entries-Patched n m failed lines lines' kept h left)

  abbrev pub then_patchlist : Removed → Edited
  then_patchlist out = elim out [
    | not_removed ↦ unfinished
    | removed (some e) n lines ↦
        edited (some (wrap "failed to remove matching patch tags:\n%w" e)) lines
    | removed none n lines ↦ by_patchlist n lines (has_section (codes "%patchlist") lines)
  ]

  tags-Patched :
      (failed : Option Error) (n : ℕ) (lines : List Text)
      → Left spec failed lines n
      → Patched (then_patchlist (removed failed n lines))
  tags-Patched (some e) n lines (kept, h) = (_, lines, refl, kept, λ ok. ground arith)
  tags-Patched none n lines (kept, h) =
      let (found, e) = has_section-some (codes "%patchlist") lines in
      subst (λ out. Patched (by_patchlist n lines out)) (sym e)
        (by_patchlist-Patched n lines found kept h)

  -- RemovePatchEntry ends for every spec and every outcome of the glob matcher: the lines that it leaves
  -- are lines of the spec in their order, and without an error there are fewer of them.
  pub remove_patch_entry-Patched : Patched (remove_patch_entry match spec)
  unfolding remove_patch_entry
  remove_patch_entry-Patched =
      let (failed, n, lines, e, left) = remove_patch_tags_matching-Ended spec match in
      subst (λ out. Patched (then_patchlist out)) (sym e) (tags-Patched failed n lines left)
