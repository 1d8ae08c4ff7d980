-- ===== src/Spec/Balance/Removed.antt =====
-- internal/rpm/spec/edit.go: removeRanges on ranges that keep the conditionals whole.
use azldev.Prelude.{ℕ, zero, suc, ◌+◌, ◌≤◌, List, [], ◌∷◌, ◌++◌, ◌≡◌, refl, arith, sym, ◌∙◌, ap}
use azldev.Prelude.{ok, some, length, take, drop, append_assoc, length-append}
use azldev.Text.{Text}
use azldev.Spec.Tree.Pairs.{ConditionalPair}
use azldev.Spec.Tree.Nesting.{is_open_at, start-Invariant}
use azldev.Spec.Visit.{remove_lines}
use azldev.Spec.Balance.{SectionRange, collect_conditional_pairs}
use azldev.Spec.Balance.Remove.{remove_ranges}
use azldev.Spec.Balance.Straddle.{NoStraddle}
use azldev.Spec.Balance.Depth.{depth_after, depth_after-append, collect_from-depth_after}
use azldev.Spec.Balance.Removal.{collect_from-Before, segment_depth}

take-drop : (n : ℕ) (xs : List Text) → take n xs ++ drop n xs ≡ xs
take-drop zero xs = refl
take-drop (suc n) [] = refl
take-drop (suc n) (x ∷ xs) = rw (take-drop n xs)

take-take : (s e : ℕ) (xs : List Text) → s ≤ e → take s (take e xs) ≡ take s xs
take-take zero e xs le = refl
take-take (suc s) zero xs le = ground arith
take-take (suc s) (suc e) [] le = refl
take-take (suc s) (suc e) (x ∷ xs) le = rw (take-take s e xs (omega (arith, le)))

length-take : (n : ℕ) (xs : List Text) → n ≤ length xs → length (take n xs) ≡ n
length-take zero xs le = refl
length-take (suc n) [] le = ground arith
length-take (suc n) (x ∷ xs) le = ground (arith, length-take n xs)

-- A removal does not touch the lines before it.
take-remove_lines :
    (p s e : ℕ) (lines : List Text) → p ≤ s → s ≤ e → take p (remove_lines lines s e) ≡ take p lines
unfolding remove_lines
take-remove_lines zero s e lines le le' = refl
take-remove_lines (suc p) zero e lines le le' = ground arith
take-remove_lines (suc p) (suc s) zero lines le le' = ground arith
take-remove_lines (suc p) (suc s) (suc e) [] le le' = refl
take-remove_lines (suc p) (suc s) (suc e) (x ∷ lines) le le' =
    rw (take-remove_lines p s e lines (omega (arith, le)) (omega (arith, le')))

-- Ranges in order, in the lines from p to len.
abbrev pub Ascending : ℕ → ℕ → List SectionRange → Type 0
Ascending p len [] = p ≤ len
Ascending p len (range ∷ ranges) =
    (p ≤ range.start) × (range.start ≤ range.end) × Ascending range.end len ranges

pub Ascending-le : (p len : ℕ) (ranges : List SectionRange) → Ascending p len ranges → p ≤ len
Ascending-le p len [] le = le
Ascending-le p len (range ∷ ranges) (le, le', rest) =
    omega (arith, le, le', Ascending-le range.end len ranges rest)

take-remove_ranges :
    (p len : ℕ) (ranges : List SectionRange) (raw : List Text)
    → Ascending p len ranges
    → take p (remove_ranges ranges raw) ≡ take p raw
unfolding remove_ranges
take-remove_ranges p len [] raw asc = refl
take-remove_ranges p len (range ∷ ranges) raw (le, le', rest) =
    let after = remove_ranges ranges raw in
    take-remove_lines p range.start range.end after le le'
    ∙ (sym (take-take p range.end after (omega (arith, le, le')))
        ∙ (ap (take p) (take-remove_ranges range.end len ranges raw rest)
            ∙ take-take p range.end raw (omega (arith, le, le'))))

abbrev KeepsDepth : List Text → List Text → Type 0
KeepsDepth before segment =
    (d : ℕ) × (depth_after before 0 ≡ some d) × (depth_after segment d ≡ some d)

segment-KeepsDepth :
    (range : SectionRange) (found : List ConditionalPair) (xs ms ys : List Text)
    → collect_conditional_pairs (xs ++ (ms ++ ys)) ≡ ok found
    → NoStraddle found range
    → length xs ≡ range.start
    → range.start + length ms ≡ range.end
    → KeepsDepth xs ms
unfolding collect_conditional_pairs is_open_at
segment-KeepsDepth range found xs ms ys h whole start end =
    let (d, e, before) =
      collect_from-Before xs (ms ++ ys) 0 [] [] found h start-Invariant (λ i k has. elim has [ ]) in
    let n = 0 + length xs in
    let closed =
      segment_depth found range whole ms ys n before.stack [] before.stack before.pairs refl
        before.left before.inv before.all (λ a is_open. ground arith)
        (λ a is_open. omega (arith, start, before.inv.open_below a is_open)) (omega (arith, start))
        (omega (arith, start, end)) in
    (d, e, rw before.height at closed)

-- The conditionals stay balanced without a segment that keeps the depth.
without-segment :
    (xs ms ys : List Text)
    → KeepsDepth xs ms
    → depth_after ((xs ++ ms) ++ ys) 0 ≡ some 0
    → depth_after (xs ++ ys) 0 ≡ some 0
without-segment xs ms ys (d, before, across) h = ground (
  arith,
  depth_after-append (xs ++ ms) ys 0,
  depth_after-append xs ms 0,
  depth_after-append xs ys 0,
)

-- The first lines, up to the end of a range.
split-range :
    (range : SectionRange) (lines : List Text)
    → range.start ≤ range.end
    → take range.end lines ≡ take range.start lines ++ drop range.start (take range.end lines)
split-range range lines le =
    sym (take-drop range.start (take range.end lines))
    ∙ ap (λ xs. xs ++ drop range.start (take range.end lines))
        (take-take range.start range.end lines le)

range-KeepsDepth :
    (range : SectionRange) (found : List ConditionalPair) (raw : List Text)
    → collect_conditional_pairs raw ≡ ok found
    → NoStraddle found range
    → range.start ≤ range.end
    → range.end ≤ length raw
    → KeepsDepth (take range.start raw) (drop range.start (take range.end raw))
range-KeepsDepth range found raw h whole le le' =
    let before = take range.start raw in
    let segment = drop range.start (take range.end raw) in
    let after = drop range.end raw in
    let split = split-range range raw le in
    let lines : raw ≡ before ++ (segment ++ after) =
      sym (take-drop range.end raw)
      ∙ (ap (λ xs. xs ++ after) split ∙ append_assoc before segment after) in
    let start = length-take range.start raw (omega (arith, le, le')) in
    segment-KeepsDepth range found before segment after
      (ap collect_conditional_pairs (sym lines) ∙ h) whole start
      (omega (
        arith,
        start,
        length-take range.end raw le',
        ap length split,
        length-append before segment,
      ))

-- Without the lines of such a range, in lines that are as before up to its end.
remove_lines-depth_after :
    (range : SectionRange) (found : List ConditionalPair) (raw lines : List Text)
    → collect_conditional_pairs raw ≡ ok found
    → NoStraddle found range
    → range.start ≤ range.end
    → range.end ≤ length raw
    → take range.end lines ≡ take range.end raw
    → depth_after lines 0 ≡ some 0
    → depth_after (remove_lines lines range.start range.end) 0 ≡ some 0
unfolding remove_lines
remove_lines-depth_after range found raw lines h whole le le' agree balanced =
    let before = take range.start raw in
    let segment = drop range.start (take range.end raw) in
    let after = drop range.end lines in
    let same_before : take range.start lines ≡ before =
      sym (take-take range.start range.end lines le)
      ∙ (ap (take range.start) agree ∙ take-take range.start range.end raw le) in
    let split : (before ++ segment) ++ after ≡ lines =
      ap (λ xs. xs ++ after) (sym (agree ∙ split-range range raw le)) ∙ take-drop range.end lines in
    ap (λ xs. depth_after (xs ++ after) 0) same_before
    ∙ without-segment before segment after (range-KeepsDepth range found raw h whole le le')
        (ap (λ xs. depth_after xs 0) split ∙ balanced)

abbrev pub AllWhole : List ConditionalPair → List SectionRange → Type 0
AllWhole found [] = Unit
AllWhole found (range ∷ ranges) = NoStraddle found range × AllWhole found ranges

pub remove_ranges-depth_after :
    (p : ℕ) (ranges : List SectionRange) (found : List ConditionalPair) (raw : List Text)
    → collect_conditional_pairs raw ≡ ok found
    → AllWhole found ranges
    → Ascending p (length raw) ranges
    → depth_after (remove_ranges ranges raw) 0 ≡ some 0
unfolding remove_ranges collect_conditional_pairs
remove_ranges-depth_after p [] found raw h whole asc = collect_from-depth_after raw 0 [] [] found h
remove_ranges-depth_after p (range ∷ ranges) found raw h (whole, rest) (le, le', asc) =
    remove_lines-depth_after range found raw (remove_ranges ranges raw) h whole le'
      (Ascending-le range.end (length raw) ranges asc)
      (take-remove_ranges range.end (length raw) ranges raw asc)
      (remove_ranges-depth_after range.end ranges found raw h rest asc)
