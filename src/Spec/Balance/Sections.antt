-- ===== src/Spec/Balance/Sections.antt =====
-- internal/rpm/spec/edit.go: RemoveSection and RemoveSubpackage on a whole spec.
use azldev.Prelude.{List, [], ◌∷◌, Bool, true, false, ◌≡◌, refl, arith, sym}
use azldev.Prelude.{
  Result, ok, some, none, length, if◌then◌else◌, Result-cases, inl, inr, ◌⊎◌, is_ok, Error, subst,
  new, wrap, ◌&&◌,
}
use azldev.Text.{Text, ◌==◌}
use azldev.Spec.Tree.Nesting.{start-Invariant}
use azldev.Spec.Edit.{Edited, edited, section_not_found}
use azldev.Spec.Balance.{SectionRange, collect_conditional_pairs}
use azldev.Spec.Balance.Remove.{
  balance_all, balance_found, collect_section_ranges, remove_ranges, remove_found, remove_section,
  remove_subpackage,
}
use azldev.Spec.Balance.Depth.{collect_from-is_ok}
use azldev.Spec.Balance.Segments.{collect_from-Collects}
use azldev.Spec.Balance.Removed.{Ascending, remove_ranges-depth_after}
use azldev.Spec.Balance.Scan.{collect_section_ranges-Ascending, balance_all-eq_ok}

abbrev pub is_balanced : List Text → Bool
is_balanced lines = is_ok (collect_conditional_pairs lines)

-- How a removal ends: with an error on the spec that it was given, or with balanced conditionals.
abbrev pub Removal : Edited → List Text → Type 0
Removal out spec =
    ((e : Error) × (out ≡ edited (some e) spec))
    ⊎ ((spec' : List Text) × (out ≡ edited none spec')
        × (is_balanced spec ≡ true)
        × (is_balanced spec' ≡ true))

-- Ranges in the order of their lines, when they were balanced, leave balanced conditionals.
balance_found-is_balanced :
    (spec : List Text) (range : SectionRange) (ranges ranges' : List SectionRange)
    → Ascending 0 (length spec) (range ∷ ranges)
    → balance_found spec (range ∷ ranges) ≡ ok ranges'
    → (is_balanced spec ≡ true) × (is_balanced (remove_ranges ranges' spec) ≡ true)
unfolding balance_found collect_conditional_pairs
balance_found-is_balanced spec range ranges ranges' asc h =
    elim (Result-cases (collect_conditional_pairs spec)) [
      | inr (_, e) ↦ ground arith
      | inl (pairs, e) ↦
          let all : balance_all spec pairs (range ∷ ranges) ≡ ok ranges' = ground arith in
          let found =
            collect_from-Collects spec 0 [] [] pairs e start-Invariant (λ i k has. elim has [ ]) in
          let (len, nested) = found.nested in
          let (asc', whole) =
            balance_all-eq_ok 0 len spec pairs (range ∷ ranges) ranges' nested found.all_found asc
              all in
          (
            ground arith,
            collect_from-is_ok (remove_ranges ranges' spec) 0 [] []
                (remove_ranges-depth_after 0 ranges' pairs spec e whole asc'),
          )
    ]

-- The ends of a removal, for what the ranges give.
ending-Removal :
    (not_found : Error) (failed : Error → Error) (spec : List Text) (ranges : List SectionRange)
    → (is_balanced spec ≡ true) × (is_balanced (remove_ranges ranges spec) ≡ true)
    → Removal (remove_found (some (ok ranges)) not_found failed spec) spec
unfolding remove_found
ending-Removal not_found failed spec [] balanced = inl (not_found, refl)
ending-Removal not_found failed spec (range ∷ ranges) (before, after) =
    inr (remove_ranges (range ∷ ranges) spec, refl, before, after)

found-Removal :
    (not_found : Error) (failed : Error → Error) (spec : List Text) (ranges : List SectionRange)
    → Ascending 0 (length spec) ranges
    → Removal (remove_found (some (balance_found spec ranges)) not_found failed spec) spec
unfolding remove_found balance_found
found-Removal not_found failed spec [] asc = inl (not_found, refl)
found-Removal not_found failed spec (range ∷ ranges) asc =
    let out : Result (List SectionRange) → Type 0 =
      λ r. Removal (remove_found (some r) not_found failed spec) spec in
    elim (Result-cases (balance_found spec (range ∷ ranges))) [
      | inr (e, h) ↦ subst out (sym h) (inl (failed e, refl))
      | inl (ranges', h) ↦ subst out (sym h) (
          ending-Removal not_found failed spec ranges'
            (balance_found-is_balanced spec range ranges ranges' asc h))
    ]

remove_found-Removal :
    (matches : Text → Text → Bool) (not_found : Error) (failed : Error → Error) (spec : List Text)
    → Removal (remove_found (collect_section_ranges matches spec) not_found failed spec) spec
remove_found-Removal matches not_found failed spec =
    let (ranges, asc, collected) = collect_section_ranges-Ascending matches spec in
    subst (λ found. Removal (remove_found found not_found failed spec) spec) (sym collected)
      (found-Removal not_found failed spec ranges asc)

guarded-Removal :
    (guard : Bool) (e : Error) (out : Edited) (spec : List Text)
    → Removal out spec
    → Removal (if guard then edited (some e) spec else out) spec
guarded-Removal true e out spec h = inl (e, refl)
guarded-Removal false e out spec h = h

-- RemoveSection ends for every spec: with an error, and the spec as it was, or without one, and then
-- every %if of the spec had its %endif and every %if of the lines that are left has one.
pub remove_section-Removal :
    (section_name package_name : Text) (spec : List Text)
    → Removal (remove_section section_name package_name spec) spec
unfolding remove_section
remove_section-Removal section_name package_name spec =
    guarded-Removal (section_name == []) (new "cannot remove the global/preamble section")
      (remove_found
        (collect_section_ranges (λ name pkg. name == section_name && pkg == package_name) spec)
        (wrap "section %#q (package=%#q) not found:\n%w" section_not_found)
        (wrap "failed to scan spec for section %#q (package=%#q):\n%w") spec)
      spec
      (remove_found-Removal (λ name pkg. name == section_name && pkg == package_name)
        (wrap "section %#q (package=%#q) not found:\n%w" section_not_found)
        (wrap "failed to scan spec for section %#q (package=%#q):\n%w") spec)

-- RemoveSubpackage ends for every spec: with an error, and the spec as it was, or without one, and
-- then every %if of the spec had its %endif and every %if of the lines that are left has one.
pub remove_subpackage-Removal :
    (package_name : Text) (spec : List Text) → Removal (remove_subpackage package_name spec) spec
unfolding remove_subpackage
remove_subpackage-Removal package_name spec =
    guarded-Removal (package_name == []) (new "cannot remove sub-package with empty name")
      (remove_found (collect_section_ranges (λ name pkg. pkg == package_name) spec)
        (wrap "sub-package %#q not found:\n%w" section_not_found)
        (wrap "failed to scan spec for sub-package %#q:\n%w") spec)
      spec
      (remove_found-Removal (λ name pkg. pkg == package_name)
        (wrap "sub-package %#q not found:\n%w" section_not_found)
        (wrap "failed to scan spec for sub-package %#q:\n%w") spec)
