-- ===== src/Spec/Tree/Branches.antt =====
-- internal/rpm/spec/tree.go: findElseDirectiveLine in the body of a conditional.
use azldev.Prelude.{ℕ, suc, zero, ◌+◌, ◌-◌, ◌≤◌, ◌<◌, List, [], ◌∷◌, ◌++◌, true, ◌≡◌, refl, arith}
use azldev.Prelude.{Option, some, none, ok, inl, inr, length, ◌&&◌}
use azldev.Prelude.{Bool-cases, pos, is_pos, subst}
use azldev.Text.{Text}
use azldev.Spec.Lines.{is_conditional_branch_directive}
use azldev.Spec.Macro.{MacroState}
use azldev.Spec.Tree.Pairs.{ConditionalPair, pair_by_if, collect_tree_conditional_pairs}
use azldev.Spec.Tree.Build.{line_at, find_else_from, find_else_directive_line}
use azldev.Spec.Tree.Nesting.{
  Invariant, is_open_at, pair_by_if-append, start-Invariant, pass-Invariant, open-Invariant,
  close-Invariant,
}
use azldev.Spec.Tree.Runs.{
  Run, finished, in_macro, opening, closing, passing, Run-extends, Run-Invariant,
}
use azldev.Spec.Tree.Bodies.{BodyAt, body_at, no_pair_after, no_pair_closing}
use azldev.Spec.Tree.Collected.{Run-from_start}

module _ (raw : List Text) (found : List ConditionalPair) where
  -- What an else line e is that was found from line n in the body of the conditional from i to k,
  -- with inner conditionals open.
  pub record ElseAt (i n k e : ℕ) (inner : List ℕ) : Type 0 where
    pub from : n ≤ e
    pub before : e < k
    pub branch : is_conditional_branch_directive (line_at raw e) ≡ true
    pub whole : (j m : ℕ) → n ≤ j → j < e → pair_by_if found j ≡ some m → m < e
    pub closed : (t m : ℕ) → is_open_at inner t ≡ true → pair_by_if found t ≡ some m → m < e
    pub rest : BodyAt raw found i (suc e)

  else_later :
      (i n k e : ℕ) (inner : List ℕ)
      → pair_by_if found n ≡ none
      → ElseAt i (suc n) k e inner
      → ElseAt i n k e inner
  else_later i n k e inner unpaired at = record {
    from = omega (arith, at.from);
    before = at.before;
    branch = at.branch;
    whole = λ j m low high h. ground (arith, at.whole j m);
    closed = at.closed;
    rest = at.rest;
  }

  else_opening :
      (i n k e : ℕ) (inner : List ℕ) → ElseAt i (suc n) k e (n ∷ inner) → ElseAt i n k e inner
  unfolding is_open_at
  else_opening i n k e inner at = record {
    from = omega (arith, at.from);
    before = at.before;
    branch = at.branch;
    whole = λ j m low high h. ground (arith, at.whole j m, at.closed j m);
    closed = λ t m is_open h. ground (arith, at.closed t m);
    rest = at.rest;
  }

  else_closing :
      (i n k e t : ℕ) (inner : List ℕ)
      → pair_by_if found n ≡ none
      → pair_by_if found t ≡ some n
      → ElseAt i (suc n) k e inner
      → ElseAt i n k e (t ∷ inner)
  unfolding is_open_at
  else_closing i n k e t inner unpaired paired at = record {
    from = omega (arith, at.from);
    before = at.before;
    branch = at.branch;
    whole = λ j m low high h. ground (arith, at.whole j m);
    closed = λ t' m is_open h. ground (arith, at.closed t' m, at.from);
    rest = at.rest;
  }

  else_here :
      (n : ℕ) (stack : List ℕ) (pairs : List ConditionalPair)
      → Run raw found (suc n) none stack pairs
      → Invariant n stack pairs
      → (i k : ℕ) (inner outer : List ℕ) → stack ≡ inner ++ (i ∷ outer)
      → n < k
      → (is_pos (pos (length inner)) 0 && is_conditional_branch_directive (line_at raw n)) ≡ true
      → ElseAt i n k n inner
  unfolding is_open_at
  else_here n stack pairs run inv i k [] outer shape below stop = record {
    from = omega arith;
    before = below;
    branch = ground arith;
    whole = λ j m low high h. ground arith;
    closed = λ t m is_open h. ground arith;
    rest = record {
      stack = outer;
      pairs = pairs;
      run = rw shape at run;
      inv = pass-Invariant n (i ∷ outer) pairs (rw shape at inv);
    };
  }
  else_here n stack pairs run inv i k (t ∷ inner) outer shape below stop = ground arith

  else_from :
      (n : ℕ) (body : Option MacroState) (stack : List ℕ) (pairs : List ConditionalPair)
      → Run raw found n body stack pairs
      → Invariant n stack pairs
      → (i k e : ℕ) (inner outer : List ℕ) → stack ≡ inner ++ (i ∷ outer)
      → pair_by_if found i ≡ some k
      → (rounds : ℕ) → n + rounds ≡ k
      → find_else_from raw rounds n (pos (length inner)) body ≡ some e
      → ElseAt i n k e inner
  unfolding find_else_from is_open_at
  else_from n body stack pairs run inv i k e inner outer shape paired zero reach h = ground arith
  else_from _ _ _ _ (finished n body end) inv i k e inner outer shape paired (suc rounds) reach h =
      ground (arith, inv.paired_below i k paired)
  else_from _ _ _ _ (in_macro n body body' stack pairs below s run) inv i k e inner outer shape
        paired (suc rounds) reach h =
      else_later i n k e inner (no_pair_after raw found n body' stack pairs run inv) (
        else_from (suc n) body' stack pairs run (pass-Invariant n stack pairs inv) i k e inner outer
          shape paired rounds (omega arith) (ground arith))
  else_from _ _ _ _ (opening n stack pairs below s d run) inv i k e inner outer shape paired
        (suc rounds) reach h =
      else_opening i n k e inner (
        else_from (suc n) none (n ∷ stack) pairs run (open-Invariant n stack pairs inv) i k e
          (n ∷ inner) outer (ground arith) paired rounds (omega arith) (ground arith))
  else_from _ _ _ _ (closing n a stack pairs below s d run) inv i k e [] outer shape paired
        (suc rounds) reach h =
      ground (
        arith,
        Run-extends raw found (suc n) none stack
            (pairs ++ (record { if_line = a; endif_line = n } ∷ [])) run a n,
        pair_by_if-append pairs a n a,
        inv.unpaired a,
      )
  else_from _ _ _ _ (closing n a stack pairs below s d run) inv i k e (t ∷ inner) outer shape paired
        (suc rounds) reach h =
      else_closing i n k e t inner (no_pair_closing raw found n a stack pairs run inv)
        (ground (
          arith,
          Run-extends raw found (suc n) none stack
              (pairs ++ (record { if_line = a; endif_line = n } ∷ [])) run a n,
          pair_by_if-append pairs a n a,
          inv.unpaired a,
        ))
        (else_from (suc n) none stack (pairs ++ (record { if_line = a; endif_line = n } ∷ [])) run
          (close-Invariant n a stack pairs inv) i k e inner outer (ground arith) paired rounds
          (omega arith) (ground arith))
  else_from _ _ _ _ (passing n stack pairs below s d run) inv i k e inner outer shape paired
        (suc rounds) reach h =
      elim (Bool-cases
        (is_pos (pos (length inner)) 0 && is_conditional_branch_directive (line_at raw n))) [
          | inl stop ↦
              subst (λ m. ElseAt i n k m inner) (ground arith)
                (else_here n stack pairs run inv i k inner outer shape (omega arith) stop)
          | inr go ↦ else_later i n k e inner (no_pair_after raw found n none stack pairs run inv) (
              else_from (suc n) none stack pairs run (pass-Invariant n stack pairs inv) i k e inner
                outer shape paired rounds (omega arith) (ground arith))
        ]

  -- The else line of a conditional, searched from a line of its body where no other one is open.
  pub else_at :
      (i n k e : ℕ)
      → BodyAt raw found i n
      → pair_by_if found i ≡ some k
      → n ≤ k
      → find_else_directive_line raw n k ≡ some e
      → ElseAt i n k e []
  unfolding find_else_directive_line
  else_at i n k e body paired low h =
      else_from n none (i ∷ body.stack) body.pairs body.run body.inv i k e [] body.stack refl paired
        (k - n) (omega arith) h

-- The else line of a conditional that was found is a branch directive between its %if and its
-- %endif, and every conditional that starts between the %if and it is closed before it.
find_else_directive_line-some :
    (raw : List Text) (pairs : List ConditionalPair) (i k e : ℕ)
    → collect_tree_conditional_pairs raw ≡ ok pairs
    → pair_by_if pairs i ≡ some k
    → find_else_directive_line raw (suc i) k ≡ some e
    → (i < e)
      × (e < k)
      × (is_conditional_branch_directive (line_at raw e) ≡ true)
      × ((j m : ℕ) → i < j → j < e → pair_by_if pairs j ≡ some m → m < e)
find_else_directive_line-some raw pairs i k e h paired searched =
    let run = Run-from_start raw pairs h in
    let inv = Run-Invariant raw pairs 0 none [] [] run start-Invariant in
    let at =
      else_at raw pairs i (suc i) k e
        (body_at raw pairs 0 none [] [] run start-Invariant i k (omega arith) paired) paired
        (inv.paired_below i k paired).0 searched in
    (at.from, at.before, at.branch, λ j m low high g. at.whole j m low high g)
