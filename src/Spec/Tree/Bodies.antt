-- ===== src/Spec/Tree/Bodies.antt =====
-- internal/rpm/spec/tree.go: the state of the scan of collectTreeConditionalPairs inside the body of
-- a conditional.
use azldev.Prelude.{ℕ, suc, ◌≤◌, List, [], ◌∷◌, ◌++◌, false, ◌≡◌, arith}
use azldev.Prelude.{Option, some, none, ◌=?◌, inl, inr}
use azldev.Prelude.{Option-cases, Bool-cases, subst}
use azldev.Text.{Text}
use azldev.Spec.Macro.{MacroState}
use azldev.Spec.Tree.Pairs.{ConditionalPair, pair_by_if}
use azldev.Spec.Tree.Nesting.{
  Invariant, is_open_at, pair_by_if-append, pass-Invariant, open-Invariant, close-Invariant,
}
use azldev.Spec.Tree.Runs.{Run, finished, in_macro, opening, closing, passing, Run-origin}

module _ (raw : List Text) (found : List ConditionalPair) where
  -- The state of the scan in the body of the conditional at line i, before line n.
  pub record BodyAt (i n : ℕ) : Type 0 where
    pub stack : List ℕ
    pub pairs : List ConditionalPair
    pub run : Run raw found n none (i ∷ stack) pairs
    pub inv : Invariant n (i ∷ stack) pairs

  -- A line that does not open a conditional has no pair.
  no_pair :
      (n : ℕ) (body : Option MacroState) (stack : List ℕ) (pairs : List ConditionalPair)
      → Run raw found (suc n) body stack pairs
      → pair_by_if pairs n ≡ none
      → is_open_at stack n ≡ false
      → pair_by_if found n ≡ none
  no_pair n body stack pairs run unpaired closed = elim (Option-cases (pair_by_if found n)) [
    | inl e ↦ e
    | inr (k, e) ↦ ground (arith, Run-origin raw found (suc n) body stack pairs run n k e)
  ]

  fresh :
      (n : ℕ) (stack : List ℕ) (pairs : List ConditionalPair)
      → Invariant n stack pairs
      → (pair_by_if pairs n ≡ none) × (is_open_at stack n ≡ false)
  fresh n stack pairs inv = (
    elim (Option-cases (pair_by_if pairs n)) [
      | inl e ↦ e
      | inr (k, e) ↦ ground (arith, inv.paired_below n k e)
    ],
    ground (arith, inv.open_below n),
  )

  pub no_pair_after :
      (n : ℕ) (body : Option MacroState) (stack : List ℕ) (pairs : List ConditionalPair)
      → Run raw found (suc n) body stack pairs
      → Invariant n stack pairs
      → pair_by_if found n ≡ none
  no_pair_after n body stack pairs run inv =
      no_pair n body stack pairs run (fresh n stack pairs inv).0 (fresh n stack pairs inv).1

  pub no_pair_closing :
      (n a : ℕ) (stack : List ℕ) (pairs : List ConditionalPair)
      → Run raw found (suc n) none stack (pairs ++ (record { if_line = a; endif_line = n } ∷ []))
      → Invariant n (a ∷ stack) pairs
      → pair_by_if found n ≡ none
  unfolding is_open_at
  no_pair_closing n a stack pairs run inv =
      let (unpaired, closed) = fresh n (a ∷ stack) pairs inv in
      no_pair n none stack (pairs ++ (record { if_line = a; endif_line = n } ∷ [])) run
        (ground (arith, pair_by_if-append pairs a n n)) (ground arith)

  pub body_at :
      (n : ℕ) (body : Option MacroState) (stack : List ℕ) (pairs : List ConditionalPair)
      → Run raw found n body stack pairs
      → Invariant n stack pairs
      → (i k : ℕ) → n ≤ i
      → pair_by_if found i ≡ some k
      → BodyAt i (suc i)
  body_at _ _ _ _ (finished n body e) inv i k from h = ground (arith, inv.paired_below i k h)
  body_at _ _ _ _ (in_macro n body body' stack pairs below s run) inv i k from h =
      elim (Bool-cases (n =? i)) [
        | inl e ↦ ground (arith, no_pair_after n body' stack pairs run inv)
        | inr e ↦
            body_at (suc n) body' stack pairs run (pass-Invariant n stack pairs inv) i k
              (ground arith) h
      ]
  body_at _ _ _ _ (opening n stack pairs below s d run) inv i k from h =
      elim (Bool-cases (n =? i)) [
        | inl e ↦
            subst (λ m. BodyAt m (suc m)) (ground arith)
              (record {
                stack = stack;
                pairs = pairs;
                run = run;
                inv = open-Invariant n stack pairs inv;
              })
        | inr e ↦
            body_at (suc n) none (n ∷ stack) pairs run (open-Invariant n stack pairs inv) i k
              (ground arith) h
      ]
  body_at _ _ _ _ (closing n a stack pairs below s d run) inv i k from h =
      elim (Bool-cases (n =? i)) [
        | inl e ↦ ground (arith, no_pair_closing n a stack pairs run inv)
        | inr e ↦
            body_at (suc n) none stack (pairs ++ (record { if_line = a; endif_line = n } ∷ [])) run
              (close-Invariant n a stack pairs inv) i k (ground arith) h
      ]
  body_at _ _ _ _ (passing n stack pairs below s d run) inv i k from h =
      elim (Bool-cases (n =? i)) [
        | inl e ↦ ground (arith, no_pair_after n none stack pairs run inv)
        | inr e ↦
            body_at (suc n) none stack pairs run (pass-Invariant n stack pairs inv) i k
              (ground arith) h
      ]
