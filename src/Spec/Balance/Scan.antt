-- ===== src/Spec/Balance/Scan.antt =====
-- internal/rpm/spec/edit.go: the ranges that collectSectionRanges finds, in the order of their lines.
use azldev.Prelude.{ℕ, suc, ◌≤◌, List, [], ◌∷◌, ◌++◌, Bool, ◌≡◌, refl, arith, sym, ap}
use azldev.Prelude.{
  Result, ok, Option, some, none, length, subst, if◌then◌else◌, Result-cases, inl, inr, Bool-cases,
}
use azldev.Text.{Text}
use azldev.Spec.Tree.Pairs.{ConditionalPair}
use azldev.Spec.Tree.Nesting.{Invariant}
use azldev.Spec.Visit.{
  Context, section_line, spec_start, section_start, section_end, spec_end, returned, Target,
  Visited, out_of_fuel,
}
use azldev.Spec.Visit.Readers.{visit-Read}
use azldev.Spec.Edit.{visit_fuel}
use azldev.Spec.Balance.{SectionRange, balance_range}
use azldev.Spec.Balance.Remove.{
  RangeScan, scan_range, range_visitor, close_last, balance_all, balance_found,
  collect_section_ranges,
}
use azldev.Spec.Balance.Straddle.{AllFound, balance_range-NoStraddle}
use azldev.Spec.Balance.Removed.{Ascending, AllWhole}

Ascending-grow :
    (p m n : ℕ) (ranges : List SectionRange) → Ascending p m ranges → m ≤ n → Ascending p n ranges
Ascending-grow p m n [] asc le = omega (arith, asc, le)
Ascending-grow p m n (range ∷ ranges) (a, b, rest) le =
    (a, b, Ascending-grow range.end m n ranges rest le)

Ascending-lower :
    (p q n : ℕ) (ranges : List SectionRange) → q ≤ p → Ascending p n ranges → Ascending q n ranges
Ascending-lower p q n [] le asc = omega (arith, asc, le)
Ascending-lower p q n (range ∷ ranges) le (a, b, rest) = (omega (arith, a, le), b, rest)

Ascending-append :
    (p s e : ℕ) (ranges : List SectionRange)
    → Ascending p s ranges
    → s ≤ e
    → Ascending p e (ranges ++ (record { start = s; end = e } ∷ []))
Ascending-append p s e [] asc le = (asc, le, omega arith)
Ascending-append p s e (range ∷ ranges) (a, b, rest) le =
    (a, b, Ascending-append range.end s e ranges rest le)

-- The ranges of a scan that is at line n.
abbrev Scanned : ℕ → RangeScan → Type 0
Scanned n (ranges, none) = Ascending 0 n ranges
Scanned n (ranges, some start) = Ascending 0 start ranges × (start ≤ n)

Scanned-suc : (n : ℕ) (scan : RangeScan) → Scanned n scan → Scanned (suc n) scan
Scanned-suc n (ranges, none) asc = Ascending-grow 0 n (suc n) ranges asc (omega arith)
Scanned-suc n (ranges, some start) (asc, le) = (asc, omega (arith, le))

Scanned-ranges :
    (n : ℕ) (ranges : List SectionRange) (cur : Option ℕ)
    → Scanned n (ranges, cur)
    → Ascending 0 n ranges
Scanned-ranges n ranges none asc = asc
Scanned-ranges n ranges (some start) (asc, le) = Ascending-grow 0 start n ranges asc le

close_last-Ascending :
    (raw : List Text) (scan : RangeScan)
    → Scanned (length raw) scan
    → Ascending 0 (length raw) (close_last raw scan)
close_last-Ascending raw (ranges, none) asc = asc
close_last-Ascending raw (ranges, some start) (asc, le) =
    Ascending-append 0 start (length raw) ranges asc le

scan_range-Scanned :
    (target : Target) (n : ℕ) (scan : RangeScan)
    → Scanned n scan
    → Scanned n (scan_range target n scan)
unfolding scan_range
scan_range-Scanned section_start n (ranges, cur) h = (Scanned-ranges n ranges cur h, omega arith)
scan_range-Scanned section_end n (ranges, none) h = h
scan_range-Scanned section_end n (ranges, some start) (asc, le) =
    Ascending-append 0 start n ranges asc le
scan_range-Scanned spec_start n scan h = h
scan_range-Scanned spec_end n scan h = h
scan_range-Scanned (section_line text parsed) n scan h = h

abbrev collected : List Text → Visited RangeScan → Option (Result (List SectionRange))
collected raw out_of_fuel = none
collected raw (returned failed ctx scan) = some (balance_found raw (close_last raw scan))

module _ (matches : Text → Text → Bool) where
  abbrev scan_at : Context → RangeScan → RangeScan
  scan_at ctx scan =
      if matches ctx.current_section.sect_name ctx.current_section.package_name
      then scan_range ctx.target ctx.current_line_num scan
      else scan

  range_visitor-reads :
      (ctx : Context) (scan : RangeScan)
      → range_visitor matches ctx scan ≡ (none, ctx, scan_at ctx scan)
  unfolding range_visitor
  range_visitor-reads ctx scan = refl

  scan_at-Scanned :
      (ctx : Context) (scan : RangeScan)
      → Scanned ctx.current_line_num scan
      → Scanned ctx.current_line_num (scan_at ctx scan)
  scan_at-Scanned ctx scan h =
      let n = ctx.current_line_num in
      elim (Bool-cases (matches ctx.current_section.sect_name ctx.current_section.package_name)) [
        | inl e ↦
            subst (λ b. Scanned n (if b then scan_range ctx.target n scan else scan)) (sym e)
              (scan_range-Scanned ctx.target n scan h)
        | inr e ↦
            subst (λ b. Scanned n (if b then scan_range ctx.target n scan else scan)) (sym e) h
      ]

  -- The ranges of the sections, which end at a place of the spec.
  pub collect_section_ranges-Ascending :
      (raw : List Text)
      → (ranges : List SectionRange) × Ascending 0 (length raw) ranges
        × (collect_section_ranges matches raw ≡ some (balance_found raw ranges))
  unfolding collect_section_ranges visit_fuel
  collect_section_ranges-Ascending raw =
      let (ctx, scan, visited, _, scanned) =
        visit-Read (range_visitor matches) scan_at range_visitor-reads Scanned scan_at-Scanned
          Scanned-suc (visit_fuel (length raw) 0) raw ([], none) (omega arith) (omega arith) in
      (close_last raw scan, close_last-Ascending raw scan scanned, ap (collected raw) visited)

-- The ranges that are balanced, in the same order and with whole conditionals.
pub balance_all-eq_ok :
    (p len : ℕ) (raw : List Text) (pairs : List ConditionalPair)
    (ranges ranges' : List SectionRange)
    → Invariant len [] pairs
    → AllFound pairs pairs
    → Ascending p (length raw) ranges
    → balance_all raw pairs ranges ≡ ok ranges'
    → Ascending p (length raw) ranges' × AllWhole pairs ranges'
unfolding balance_all
balance_all-eq_ok p len raw pairs [] ranges' inv all asc h =
    let same : [] ≡ ranges' = ground arith in
    subst (λ rs. Ascending p (length raw) rs × AllWhole pairs rs) same (asc, tt)
balance_all-eq_ok p len raw pairs (range ∷ ranges) ranges' inv all (a, b, asc) h =
    elim (Result-cases (balance_range range raw pairs)) [
      | inr (_, e) ↦ ground arith
      | inl (range', e) ↦ elim (Result-cases (balance_all raw pairs ranges)) [
        | inr (_, e') ↦ ground arith
        | inl (rest, e') ↦
            let (start, le, end, whole) =
              balance_range-NoStraddle range range' raw pairs len inv all b e in
            let (asc', wholes) =
              balance_all-eq_ok range.end len raw pairs ranges rest inv all asc e' in
            let same : range' ∷ rest ≡ ranges' = ground arith in
            subst (λ rs. Ascending p (length raw) rs × AllWhole pairs rs) same
              (
                (omega arith, le, Ascending-lower range.end range'.end (length raw) rest end asc'),
                (whole, wholes),
              )
      ]
    ]
