-- ===== src/Spec/Balance/Segments.antt =====
-- internal/rpm/spec/edit.go: the runs of collectConditionalPairs, and the segments of lines that no
-- conditional straddles.
use azldev.Prelude.{ℕ, suc, List, [], ◌∷◌, ◌++◌, ◌≡◌, arith}
use azldev.Prelude.{ok, inl, inr, ◌⊎◌, none, ◌=?◌, Bool-cases, subst}
use azldev.Text.{Text}
use azldev.Spec.Lines.{conditional_depth_change}
use azldev.Spec.Tree.Pairs.{ConditionalPair, pair_by_if}
use azldev.Spec.Tree.Nesting.{
  Invariant, is_open_at, pair_by_if-append, pass-Invariant, open-Invariant, close-Invariant,
}
use azldev.Spec.Tree.Collected.{depth-cases}
use azldev.Spec.Balance.{collect_from}
use azldev.Spec.Balance.Straddle.{Has, AllFound}
use azldev.Spec.Balance.Depth.{Collects}

abbrev pub add_pair : List ConditionalPair → ℕ → ℕ → List ConditionalPair
add_pair pairs a b = pairs ++ (record { if_line = a; endif_line = b } ∷ [])

Has-add_pair :
    (pairs : List ConditionalPair) (a b i k : ℕ)
    → Has (add_pair pairs a b) i k
    → Has pairs i k ⊎ ((a ≡ i) × (b ≡ k))
Has-add_pair [] a b i k (inl e) = inr e
Has-add_pair [] a b i k (inr has) = elim has [ ]
Has-add_pair (pair ∷ pairs) a b i k (inl e) = inl (inl e)
Has-add_pair (pair ∷ pairs) a b i k (inr has) = elim (Has-add_pair pairs a b i k has) [
  | inl has' ↦ inl (inr has')
  | inr e ↦ inr e
]

pub AllFound-add_pair :
    (pairs : List ConditionalPair) (a b : ℕ)
    → pair_by_if pairs a ≡ none
    → AllFound pairs pairs
    → AllFound (add_pair pairs a b) (add_pair pairs a b)
AllFound-add_pair pairs a b fresh found i k has = elim (Has-add_pair pairs a b i k has) [
  | inl has' ↦ ground (arith, found i k has', pair_by_if-append pairs a b i)
  | inr (e, e') ↦ ground (arith, pair_by_if-append pairs a b i)
]

pub collect_from-Collects :
    (texts : List Text) (n : ℕ) (stack : List ℕ) (pairs found : List ConditionalPair)
    → collect_from texts n stack pairs ≡ ok found
    → Invariant n stack pairs
    → AllFound pairs pairs
    → Collects n stack pairs found
unfolding collect_from is_open_at
collect_from-Collects [] n [] pairs found h inv all =
    let e : pairs ≡ found = ground arith in
    record {
      nested = (n, subst (Invariant n []) e inv);
      all_found = subst (λ p. AllFound p p) e all;
      kept = λ i k f. ground arith;
      closed = λ a f. ground arith;
    }
collect_from-Collects [] n (a ∷ stack) pairs found h inv all = ground arith
collect_from-Collects (text ∷ texts) n [] pairs found h inv all =
    elim (depth-cases (conditional_depth_change text)) [
      | inl e ↦
          let rest =
            collect_from-Collects texts (suc n) (n ∷ []) pairs found (ground arith)
              (open-Invariant n [] pairs inv) all in
          record {
            nested = rest.nested;
            all_found = rest.all_found;
            kept = rest.kept;
            closed = λ a f. ground arith;
          }
      | inr (inl e) ↦ ground arith
      | inr (inr e) ↦
          let rest =
            collect_from-Collects texts (suc n) [] pairs found (ground arith)
              (pass-Invariant n [] pairs inv) all in
          record {
            nested = rest.nested;
            all_found = rest.all_found;
            kept = rest.kept;
            closed = λ a f. ground arith;
          }
    ]
collect_from-Collects (text ∷ texts) n (b ∷ stack) pairs found h inv all =
    elim (depth-cases (conditional_depth_change text)) [
      | inl e ↦
          let rest =
            collect_from-Collects texts (suc n) (n ∷ b ∷ stack) pairs found (ground arith)
              (open-Invariant n (b ∷ stack) pairs inv) all in
          record {
            nested = rest.nested;
            all_found = rest.all_found;
            kept = rest.kept;
            closed =
                λ a f. let (k, g, le) = rest.closed a (ground arith) in (k, g, omega (arith, le));
          }
      | inr (inl e) ↦
          let rest =
            collect_from-Collects texts (suc n) stack (add_pair pairs b n) found (ground arith)
              (close-Invariant n b stack pairs inv)
              (AllFound-add_pair pairs b n (inv.unpaired b (ground arith)) all) in
          record {
            nested = rest.nested;
            all_found = rest.all_found;
            kept = λ i k f. ground (arith, rest.kept i k, pair_by_if-append pairs b n i);
            closed = λ a f. elim (Bool-cases (b =? a)) [
              | inl here ↦ (
                n,
                ground (arith, rest.kept a n, pair_by_if-append pairs b n a, inv.unpaired b),
                omega arith,
              )
              | inr other ↦
                  let (k, g, le) = rest.closed a (ground arith) in (k, g, omega (arith, le))
            ];
          }
      | inr (inr e) ↦
          let rest =
            collect_from-Collects texts (suc n) (b ∷ stack) pairs found (ground arith)
              (pass-Invariant n (b ∷ stack) pairs inv) all in
          record {
            nested = rest.nested;
            all_found = rest.all_found;
            kept = rest.kept;
            closed = λ a f. let (k, g, le) = rest.closed a f in (k, g, omega (arith, le));
          }
    ]
