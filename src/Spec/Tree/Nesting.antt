-- ===== src/Spec/Tree/Nesting.antt =====
-- internal/rpm/spec/tree.go: an invariant of the stack and the pairs of
-- collectTreeConditionalPairs.
use azldev.Prelude.{ℕ, suc, ◌≤◌, ◌<◌, List, [], ◌∷◌, ◌++◌, Bool, true, false, ◌≡◌, arith}
use azldev.Prelude.{Option, some, none, ◌=?◌, ◌||◌, inl, inr}
use azldev.Prelude.{Option-cases}
use azldev.Spec.Tree.Pairs.{ConditionalPair, pair_by_if}

-- Whether a conditional that starts at a line is open on the stack.
unfoldable pub is_open_at : List ℕ → ℕ → Bool
is_open_at [] line = false
is_open_at (if_line ∷ stack) line = (if_line =? line) || is_open_at stack line

abbrev or_pair : Option ℕ → Bool → ℕ → Option ℕ
or_pair (some k) hit endif_line = some k
or_pair none true endif_line = some endif_line
or_pair none false endif_line = none

pub pair_by_if-append :
    (pairs : List ConditionalPair) (a b line : ℕ)
    → pair_by_if (pairs ++ (record { if_line = a; endif_line = b } ∷ [])) line
      ≡ or_pair (pair_by_if pairs line) (a =? line) b
unfolding pair_by_if
pair_by_if-append [] a b line = ground arith
pair_by_if-append (pair ∷ pairs) a b line = ground (arith, pair_by_if-append pairs a b line)

-- Their first lines from the innermost conditional outwards, each after the ones that follow.
abbrev pub Descending : List ℕ → Type 0
Descending [] = Unit
Descending (if_line ∷ stack) =
    ((line : ℕ) → is_open_at stack line ≡ true → line < if_line) × Descending stack

-- What holds of the stack and the pairs before line n.
pub record Invariant (n : ℕ) (stack : List ℕ) (pairs : List ConditionalPair) : Type 0 where
  pub paired_below : (i k : ℕ) → pair_by_if pairs i ≡ some k → (i < k) × (k < n)
  pub open_below : (i : ℕ) → is_open_at stack i ≡ true → i < n
  pub unpaired : (i : ℕ) → is_open_at stack i ≡ true → pair_by_if pairs i ≡ none
  pub nested :
      (i k j m : ℕ)
      → pair_by_if pairs i ≡ some k
      → pair_by_if pairs j ≡ some m
      → i < j
      → j ≤ k
      → m < k
  pub outside :
      (i k j : ℕ) → is_open_at stack j ≡ true → pair_by_if pairs i ≡ some k → i < j → k < j
  pub descending : Descending stack

pub start-Invariant : Invariant 0 [] []
unfolding pair_by_if is_open_at
start-Invariant = record {
  paired_below = λ i k h. ground arith;
  open_below = λ i h. ground arith;
  unpaired = λ i h. ground arith;
  nested = λ i k j m h h' below inside. ground arith;
  outside = λ i k j h h' below. ground arith;
  descending = tt;
}

-- A line that changes neither.
pub pass-Invariant :
    (n : ℕ) (stack : List ℕ) (pairs : List ConditionalPair)
    → Invariant n stack pairs
    → Invariant (suc n) stack pairs
pass-Invariant n stack pairs inv = record {
  paired_below = λ i k h. ground (arith, inv.paired_below i k h);
  open_below = λ i h. ground (arith, inv.open_below i h);
  unpaired = inv.unpaired;
  nested = inv.nested;
  outside = inv.outside;
  descending = inv.descending;
}

pub open-Invariant :
    (n : ℕ) (stack : List ℕ) (pairs : List ConditionalPair)
    → Invariant n stack pairs
    → Invariant (suc n) (n ∷ stack) pairs
unfolding is_open_at
open-Invariant n stack pairs inv = record {
  paired_below = λ i k h. ground (arith, inv.paired_below i k h);
  open_below = λ i h. ground (arith, inv.open_below i);
  unpaired = λ i h. elim (Option-cases (pair_by_if pairs i)) [
    | inl e ↦ e
    | inr (k, e) ↦ ground (arith, inv.unpaired i, inv.paired_below i k e)
  ];
  nested = inv.nested;
  outside = λ i k j h e below. ground (arith, inv.outside i k j, inv.paired_below i k e);
  descending = (λ line h. inv.open_below line h, inv.descending);
}

pub close-Invariant :
    (n a : ℕ) (stack : List ℕ) (pairs : List ConditionalPair)
    → Invariant n (a ∷ stack) pairs
    → Invariant (suc n) stack (pairs ++ (record { if_line = a; endif_line = n } ∷ []))
unfolding is_open_at
close-Invariant n a stack pairs inv = record {
  paired_below = λ i k h.
      ground (arith, pair_by_if-append pairs a n i, inv.paired_below i k, inv.open_below a);
  open_below = λ i h. ground (arith, inv.open_below i);
  unpaired =
      λ i h. ground (arith, pair_by_if-append pairs a n i, inv.unpaired i, inv.descending.0 i);
  nested = λ i k j m h h' below inside. ground (
    arith,
    pair_by_if-append pairs a n i,
    pair_by_if-append pairs a n j,
    inv.nested i k j m,
    inv.outside i k a,
    inv.paired_below j m,
  );
  outside = λ i k j h h' below. ground (
    arith,
    pair_by_if-append pairs a n i,
    inv.outside i k j,
    inv.descending.0 j,
    inv.open_below j,
  );
  descending = inv.descending.1;
}
