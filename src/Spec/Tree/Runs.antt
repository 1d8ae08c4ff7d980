-- ===== src/Spec/Tree/Runs.antt =====
-- internal/rpm/spec/tree.go: the loop of collectTreeConditionalPairs as a relation between its
-- states.
use azldev.Prelude.{ℕ, suc, ◌≤◌, ◌<◌, List, [], ◌∷◌, ◌++◌, true, false, ◌≡◌, arith}
use azldev.Prelude.{Option, some, none, inl, length, ◌⊎◌, subst}
use azldev.Text.{Text}
use azldev.Spec.Tree.Build.{line_at}
use azldev.Spec.Lines.{opens, closes, same, conditional_depth_change}
use azldev.Spec.Macro.{MacroState}
use azldev.Spec.Tree.Pairs.{ConditionalPair, scan_line, pair_by_if}
use azldev.Spec.Tree.Nesting.{
  Invariant, is_open_at, pair_by_if-append, pass-Invariant, open-Invariant, close-Invariant,
}

-- A successful run of the loop from line n, over the if lines of its stack, that ends with `found`.
pub data Run (raw : List Text) (found : List ConditionalPair)
    : ℕ → Option MacroState → List ℕ → List ConditionalPair → Type 0 where
  finished : (n : ℕ) (body : Option MacroState) → n ≡ length raw → Run raw found n body [] found
  in_macro :
      (n : ℕ) (body body' : Option MacroState) (stack : List ℕ) (pairs : List ConditionalPair)
      → n < length raw
      → scan_line body (line_at raw n) ≡ (body', true)
      → Run raw found (suc n) body' stack pairs
      → Run raw found n body stack pairs
  opening :
      (n : ℕ) (stack : List ℕ) (pairs : List ConditionalPair)
      → n < length raw
      → scan_line none (line_at raw n) ≡ (none, false)
      → conditional_depth_change (line_at raw n) ≡ opens
      → Run raw found (suc n) none (n ∷ stack) pairs
      → Run raw found n none stack pairs
  closing :
      (n a : ℕ) (stack : List ℕ) (pairs : List ConditionalPair)
      → n < length raw
      → scan_line none (line_at raw n) ≡ (none, false)
      → conditional_depth_change (line_at raw n) ≡ closes
      → Run raw found (suc n) none stack (pairs ++ (record { if_line = a; endif_line = n } ∷ []))
      → Run raw found n none (a ∷ stack) pairs
  passing :
      (n : ℕ) (stack : List ℕ) (pairs : List ConditionalPair)
      → n < length raw
      → scan_line none (line_at raw n) ≡ (none, false)
      → conditional_depth_change (line_at raw n) ≡ same
      → Run raw found (suc n) none stack pairs
      → Run raw found n none stack pairs

pub Run-extends :
    (raw : List Text) (found : List ConditionalPair) (n : ℕ) (body : Option MacroState)
    (stack : List ℕ) (pairs : List ConditionalPair)
    → Run raw found n body stack pairs
    → (i k : ℕ) → pair_by_if pairs i ≡ some k
    → pair_by_if found i ≡ some k
Run-extends raw found _ _ _ _ (finished n body e) i k h = h
Run-extends raw found _ _ _ _ (in_macro n body body' stack pairs below s run) i k h =
    Run-extends raw found (suc n) body' stack pairs run i k h
Run-extends raw found _ _ _ _ (opening n stack pairs below s d run) i k h =
    Run-extends raw found (suc n) none (n ∷ stack) pairs run i k h
Run-extends raw found _ _ _ _ (closing n a stack pairs below s d run) i k h =
    Run-extends raw found (suc n) none stack
      (pairs ++ (record { if_line = a; endif_line = n } ∷ [])) run i k
      (ground (arith, pair_by_if-append pairs a n i))
Run-extends raw found _ _ _ _ (passing n stack pairs below s d run) i k h =
    Run-extends raw found (suc n) none stack pairs run i k h

pub Run-Invariant :
    (raw : List Text) (found : List ConditionalPair) (n : ℕ) (body : Option MacroState)
    (stack : List ℕ) (pairs : List ConditionalPair)
    → Run raw found n body stack pairs
    → Invariant n stack pairs
    → Invariant (length raw) [] found
Run-Invariant raw found _ _ _ _ (finished n body e) inv = subst (λ m. Invariant m [] found) e inv
Run-Invariant raw found _ _ _ _ (in_macro n body body' stack pairs below s run) inv =
    Run-Invariant raw found (suc n) body' stack pairs run (pass-Invariant n stack pairs inv)
Run-Invariant raw found _ _ _ _ (opening n stack pairs below s d run) inv =
    Run-Invariant raw found (suc n) none (n ∷ stack) pairs run (open-Invariant n stack pairs inv)
Run-Invariant raw found _ _ _ _ (closing n a stack pairs below s d run) inv =
    Run-Invariant raw found (suc n) none stack
      (pairs ++ (record { if_line = a; endif_line = n } ∷ [])) run
      (close-Invariant n a stack pairs inv)
Run-Invariant raw found _ _ _ _ (passing n stack pairs below s d run) inv =
    Run-Invariant raw found (suc n) none stack pairs run (pass-Invariant n stack pairs inv)

-- Where a pair that is found comes from.
pub Run-origin :
    (raw : List Text) (found : List ConditionalPair) (n : ℕ) (body : Option MacroState)
    (stack : List ℕ) (pairs : List ConditionalPair)
    → Run raw found n body stack pairs
    → (i k : ℕ) → pair_by_if found i ≡ some k
    → (pair_by_if pairs i ≡ some k) ⊎ ((is_open_at stack i ≡ true) ⊎ (n ≤ i))
unfolding is_open_at
Run-origin raw found _ _ _ _ (finished n body e) i k h = inl h
Run-origin raw found _ _ _ _ (in_macro n body body' stack pairs below s run) i k h =
    ground (arith, Run-origin raw found (suc n) body' stack pairs run i k h)
Run-origin raw found _ _ _ _ (opening n stack pairs below s d run) i k h =
    ground (arith, Run-origin raw found (suc n) none (n ∷ stack) pairs run i k h)
Run-origin raw found _ _ _ _ (closing n a stack pairs below s d run) i k h = ground (
  arith,
  Run-origin raw found (suc n) none stack (pairs ++ (record { if_line = a; endif_line = n } ∷ []))
      run i k h,
  pair_by_if-append pairs a n i,
)
Run-origin raw found _ _ _ _ (passing n stack pairs below s d run) i k h =
    ground (arith, Run-origin raw found (suc n) none stack pairs run i k h)

-- The line that closes a pair is an %endif.
pub Run-closes :
    (raw : List Text) (found : List ConditionalPair) (n : ℕ) (body : Option MacroState)
    (stack : List ℕ) (pairs : List ConditionalPair)
    → Run raw found n body stack pairs
    → (i k : ℕ) → pair_by_if found i ≡ some k
    → (pair_by_if pairs i ≡ some k) ⊎ (conditional_depth_change (line_at raw k) ≡ closes)
Run-closes raw found _ _ _ _ (finished n body e) i k h = inl h
Run-closes raw found _ _ _ _ (in_macro n body body' stack pairs below s run) i k h =
    Run-closes raw found (suc n) body' stack pairs run i k h
Run-closes raw found _ _ _ _ (opening n stack pairs below s d run) i k h =
    Run-closes raw found (suc n) none (n ∷ stack) pairs run i k h
Run-closes raw found _ _ _ _ (closing n a stack pairs below s d run) i k h = ground (
  arith,
  Run-closes raw found (suc n) none stack (pairs ++ (record { if_line = a; endif_line = n } ∷ []))
      run i k h,
  pair_by_if-append pairs a n i,
)
Run-closes raw found _ _ _ _ (passing n stack pairs below s d run) i k h =
    Run-closes raw found (suc n) none stack pairs run i k h
