-- ===== src/Spec/Balance/Removal.antt =====
-- internal/rpm/spec/edit.go: lines between two places of a spec where the same conditionals are open.
use azldev.Prelude.{ℕ, suc, ◌+◌, ◌≤◌, ◌<◌, List, [], ◌∷◌, ◌++◌, true, ◌≡◌, refl, arith, sym, ◌∙◌}
use azldev.Prelude.{ok, inl, inr, ◌⊎◌, some, length, subst}
use azldev.Text.{Text}
use azldev.Spec.Lines.{closes, conditional_depth_change}
use azldev.Spec.Tree.Pairs.{ConditionalPair, pair_by_if}
use azldev.Spec.Tree.Nesting.{
  Invariant, is_open_at, pair_by_if-append, pass-Invariant, open-Invariant, close-Invariant,
}
use azldev.Spec.Tree.Collected.{depth-cases}
use azldev.Spec.Balance.{SectionRange, collect_from}
use azldev.Spec.Balance.Straddle.{AllFound, NoStraddle}
use azldev.Spec.Balance.Depth.{depth_after}
use azldev.Spec.Balance.Segments.{add_pair, AllFound-add_pair, collect_from-Collects}

-- One line of a collection: where it goes on, and what the line does to the stack.
record Next (n : ℕ) (x : Text) (texts : List Text) (stack : List ℕ) (found : List ConditionalPair)
    : Type 0 where
  stack' : List ℕ
  pairs' : List ConditionalPair
  left : collect_from texts (suc n) stack' pairs' ≡ ok found
  inv : Invariant (suc n) stack' pairs'
  all : AllFound pairs' pairs'
  depth : (ys : List Text) → depth_after (x ∷ ys) (length stack) ≡ depth_after ys (length stack')
  change :
      (stack' ≡ n ∷ stack)
      ⊎ (stack' ≡ stack)
      ⊎ ((a : ℕ) × (stack ≡ a ∷ stack') × (pair_by_if found a ≡ some n))

closing-Next :
    (x : Text) (texts : List Text) (n : ℕ) (stack : List ℕ) (pairs found : List ConditionalPair)
    → collect_from (x ∷ texts) n stack pairs ≡ ok found
    → Invariant n stack pairs
    → AllFound pairs pairs
    → conditional_depth_change x ≡ closes
    → Next n x texts stack found
unfolding collect_from depth_after is_open_at
closing-Next x texts n [] pairs found h inv all e = ground arith
closing-Next x texts n (a ∷ stack) pairs found h inv all e =
    let left : collect_from texts (suc n) stack (add_pair pairs a n) ≡ ok found = ground arith in
    let inv' = close-Invariant n a stack pairs inv in
    let all' = AllFound-add_pair pairs a n (inv.unpaired a (ground arith)) all in
    record {
      stack' = stack;
      pairs' = add_pair pairs a n;
      left = left;
      inv = inv';
      all = all';
      depth = λ ys. ground arith;
      change = inr (
          inr (
            a,
            refl,
            (collect_from-Collects texts (suc n) stack (add_pair pairs a n) found left inv'
                  all').kept
                a n (ground (arith, pair_by_if-append pairs a n a, inv.unpaired a)),
          ));
    }

line-Next :
    (x : Text) (texts : List Text) (n : ℕ) (stack : List ℕ) (pairs found : List ConditionalPair)
    → collect_from (x ∷ texts) n stack pairs ≡ ok found
    → Invariant n stack pairs
    → AllFound pairs pairs
    → Next n x texts stack found
unfolding collect_from depth_after is_open_at
line-Next x texts n stack pairs found h inv all = elim (depth-cases (conditional_depth_change x)) [
  | inl e ↦ record {
    stack' = n ∷ stack;
    pairs' = pairs;
    left = ground arith;
    inv = open-Invariant n stack pairs inv;
    all = all;
    depth = λ ys. ground arith;
    change = inl refl;
  }
  | inr (inl e) ↦ closing-Next x texts n stack pairs found h inv all e
  | inr (inr e) ↦ record {
    stack' = stack;
    pairs' = pairs;
    left = ground arith;
    inv = pass-Invariant n stack pairs inv;
    all = all;
    depth = λ ys. ground arith;
    change = inr (inl refl);
  }
]

-- The state of a collection before its last lines.
pub record Before (n : ℕ) (texts : List Text) (depth : ℕ) (found : List ConditionalPair)
    : Type 0 where
  pub stack : List ℕ
  pub pairs : List ConditionalPair
  pub left : collect_from texts n stack pairs ≡ ok found
  pub inv : Invariant n stack pairs
  pub all : AllFound pairs pairs
  pub height : length stack ≡ depth

pub collect_from-Before :
    (xs ys : List Text) (n : ℕ) (stack : List ℕ) (pairs found : List ConditionalPair)
    → collect_from (xs ++ ys) n stack pairs ≡ ok found
    → Invariant n stack pairs
    → AllFound pairs pairs
    → (depth : ℕ) × (depth_after xs (length stack) ≡ some depth)
      × Before (n + length xs) ys depth found
unfolding depth_after
collect_from-Before [] ys n stack pairs found h inv all = (
  length stack,
  refl,
  subst (λ m. Before m ys (length stack) found) (omega arith)
      (record { stack = stack; pairs = pairs; left = h; inv = inv; all = all; height = refl }),
)
collect_from-Before (x ∷ xs) ys n stack pairs found h inv all =
    let next = line-Next x (xs ++ ys) n stack pairs found h inv all in
    let (depth, e, before) =
      collect_from-Before xs ys (suc n) next.stack' next.pairs' found next.left next.inv next.all in
    (depth, next.depth xs ∙ e, subst (λ m. Before m ys depth found) (omega arith) before)

-- Which part of the stack a closed conditional was on.
closing_shape :
    (a : ℕ) (stack inner outer : List ℕ)
    → a ∷ stack ≡ inner ++ outer
    → ((rest : List ℕ) × (inner ≡ a ∷ rest) × (stack ≡ rest ++ outer))
      ⊎ ((inner ≡ []) × (outer ≡ a ∷ stack))
closing_shape a stack [] outer h = inr (refl, sym h)
closing_shape a stack (b ∷ inner) outer h = inl (inner, ground arith, ground arith)

module _ (found : List ConditionalPair) (range : SectionRange)
    (whole : NoStraddle found range) where
  -- In the range, over conditionals that were opened before it: what is opened is closed.
  pub segment_depth :
      (xs ys : List Text) (n : ℕ) (stack inner outer : List ℕ) (pairs : List ConditionalPair)
      → stack ≡ inner ++ outer
      → collect_from (xs ++ ys) n stack pairs ≡ ok found
      → Invariant n stack pairs
      → AllFound pairs pairs
      → ((a : ℕ) → is_open_at inner a ≡ true → range.start ≤ a)
      → ((a : ℕ) → is_open_at outer a ≡ true → a < range.start)
      → range.start ≤ n
      → n + length xs ≡ range.end
      → depth_after xs (length stack) ≡ some (length outer)
  unfolding depth_after is_open_at
  segment_depth [] ys n stack [] outer pairs shape h inv all opened old from to = rw shape refl
  segment_depth [] ys n stack (a ∷ inner) outer pairs shape h inv all opened old from to =
      let is_open : is_open_at stack a ≡ true = rw shape (ground arith) in
      let (k, paired, le) =
        (collect_from-Collects ys n stack pairs found h inv all).closed a is_open in
      ground (arith, whole a k paired, opened a (ground arith), inv.open_below a is_open)
  segment_depth (x ∷ xs) ys n stack inner outer pairs shape h inv all opened old from to =
      let next = line-Next x (xs ++ ys) n stack pairs found h inv all in
      elim next.change [
        | inl e ↦
            next.depth xs
            ∙ segment_depth xs ys (suc n) next.stack' (n ∷ inner) outer next.pairs' (ground arith)
                next.left next.inv next.all (λ a is_open. ground (arith, opened a)) old
                (omega arith) (omega arith)
        | inr (inl e) ↦
            next.depth xs
            ∙ segment_depth xs ys (suc n) next.stack' inner outer next.pairs' (e ∙ shape) next.left
                next.inv next.all opened old (omega arith) (omega arith)
        | inr (inr (a, e, paired)) ↦
            elim (closing_shape a next.stack' inner outer (sym e ∙ shape)) [
              | inl (rest, inside_it, shape') ↦
                  next.depth xs
                  ∙ segment_depth xs ys (suc n) next.stack' rest outer next.pairs' shape' next.left
                      next.inv next.all (λ b is_open. opened b (rw inside_it (ground arith))) old
                      (omega arith) (omega arith)
              | inr (none_inside, shape') ↦
                  ground (arith, whole a n paired, old a (rw shape' (ground arith)))
            ]
      ]
