-- ===== src/Spec/Tree/Collected.antt =====
-- internal/rpm/spec/tree.go: the successful calls of collectTreeConditionalPairs and their runs.
use azldev.Prelude.{ℕ, suc, zero, ◌≤◌, ◌<◌, List, [], ◌∷◌, ◌++◌, false, ◌≡◌, refl, arith}
use azldev.Prelude.{Option, some, none, ok, inl, inr, length, drop, ◌⊎◌}
use azldev.Prelude.{Result-cases, Bool-cases}
use azldev.Text.{Text}
use azldev.Spec.Tree.Build.{line_at}
use azldev.Spec.Lines.{DepthChange, opens, closes, same, conditional_depth_change}
use azldev.Spec.Macro.{MacroState}
use azldev.Spec.Tree.Pairs.{
  ConditionalPair, ConditionalFrame, scan_line, branch_frame, conditional_step, collect_pairs_from,
  collect_tree_conditional_pairs, pair_by_if, unmatched,
}
use azldev.Spec.Tree.Nesting.{start-Invariant}
use azldev.Spec.Tree.Runs.{
  Run, finished, in_macro, opening, closing, passing, Run-closes, Run-Invariant,
}

pub drop-cons :
    (raw : List Text) (n : ℕ) (line : Text) (lines : List Text)
    → drop n raw ≡ line ∷ lines
    → (n < length raw) × (line_at raw n ≡ line) × (drop (suc n) raw ≡ lines)
unfolding line_at
drop-cons [] zero line lines h = ground arith
drop-cons [] (suc n) line lines h = ground arith
drop-cons (line' ∷ raw) zero line lines h = ground arith
drop-cons (line' ∷ raw) (suc n) line lines h = ground (arith, drop-cons raw n line lines h)

drop-nil : (raw : List Text) (n : ℕ) → drop n raw ≡ [] → length raw ≤ n
drop-nil [] n h = omega arith
drop-nil (line ∷ raw) zero h = ground arith
drop-nil (line ∷ raw) (suc n) h = ground (arith, drop-nil raw n h)

abbrev pub if_lines : List ConditionalFrame → List ℕ
if_lines [] = []
if_lines (frame ∷ stack) = frame.if_line ∷ if_lines stack

unmatched-eq_ok :
    (stack : List ConditionalFrame) (pairs found : List ConditionalPair)
    → unmatched stack pairs ≡ ok found
    → (if_lines stack ≡ []) × (pairs ≡ found)
unfolding unmatched
unmatched-eq_ok [] pairs found h = ground arith
unmatched-eq_ok (frame ∷ stack) pairs found h = ground arith

branch_frame-eq_ok :
    (line : Text) (n : ℕ) (stack stack' : List ConditionalFrame)
    → branch_frame line n stack ≡ ok stack'
    → if_lines stack' ≡ if_lines stack
unfolding branch_frame
branch_frame-eq_ok line n [] stack' h = ground arith
branch_frame-eq_ok line n (frame ∷ stack) stack' h = ground arith

-- A line outside macro bodies is one of the three steps.
scan_outside :
    (body body' : Option MacroState) (line : Text)
    → scan_line body line ≡ (body', false)
    → (body ≡ none) × (body' ≡ none)
unfolding scan_line
scan_outside none body' line h = ground arith
scan_outside (some state) body' line h = ground arith

pub depth-cases : (change : DepthChange) → (change ≡ opens) ⊎ ((change ≡ closes) ⊎ (change ≡ same))
depth-cases opens = inl refl
depth-cases closes = inr (inl refl)
depth-cases same = inr (inr refl)

pub pair-cases {ℓ κ} : {A : Type ℓ} {B : Type κ} (p : A × B) → (a : A) × (b : B) × (p ≡ (a, b))
pair-cases (a, b) = (a, b, refl)

conditional_step-closes :
    (line : Text) (n : ℕ) (stack stack' : List ConditionalFrame)
    (pairs pairs' : List ConditionalPair)
    → conditional_depth_change line ≡ closes
    → conditional_step line n stack pairs ≡ ok (stack', pairs')
    → (a : ℕ) × (if_lines stack ≡ a ∷ if_lines stack')
      × (pairs' ≡ pairs ++ (record { if_line = a; endif_line = n } ∷ []))
unfolding conditional_step
conditional_step-closes line n [] stack' pairs pairs' e h = ground arith
conditional_step-closes line n (frame ∷ stack) stack' pairs pairs' e h =
    (frame.if_line, ground arith, ground arith)

conditional_step-eq_ok :
    (line : Text) (n : ℕ) (stack stack' : List ConditionalFrame)
    (pairs pairs' : List ConditionalPair)
    → conditional_step line n stack pairs ≡ ok (stack', pairs')
    → ((conditional_depth_change line ≡ opens)
        × (if_lines stack' ≡ n ∷ if_lines stack)
        × (pairs' ≡ pairs))
      ⊎ (((conditional_depth_change line ≡ closes)
            × (a : ℕ) × (if_lines stack ≡ a ∷ if_lines stack')
            × (pairs' ≡ pairs ++ (record { if_line = a; endif_line = n } ∷ [])))
          ⊎ ((conditional_depth_change line ≡ same)
              × (if_lines stack' ≡ if_lines stack)
              × (pairs' ≡ pairs)))
unfolding conditional_step
conditional_step-eq_ok line n stack stack' pairs pairs' h =
    elim (depth-cases (conditional_depth_change line)) [
      | inl e ↦ inl (e, ground arith, ground arith)
      | inr (inl e) ↦ inr (
          inl (
            e,
            (conditional_step-closes line n stack stack' pairs pairs' e h).0,
            (conditional_step-closes line n stack stack' pairs pairs' e h).1,
            (conditional_step-closes line n stack stack' pairs pairs' e h).2,
          ))
      | inr (inr e) ↦ elim (Result-cases (branch_frame line n stack)) [
        | inl (s, f) ↦
            inr (inr (e, ground (arith, branch_frame-eq_ok line n stack s f), ground arith))
        | inr (s, f) ↦ inr (inr (e, ground arith, ground arith))
      ]
    ]

pub Run-of :
    (raw : List Text) (found : List ConditionalPair) (lines : List Text) (n : ℕ)
    (body : Option MacroState) (stack : List ConditionalFrame) (pairs : List ConditionalPair)
    → drop n raw ≡ lines
    → n ≤ length raw
    → collect_pairs_from lines n body stack pairs ≡ ok found
    → Run raw found n body (if_lines stack) pairs
unfolding collect_pairs_from
Run-of raw found [] n body stack pairs at_n inside h =
    let (no_frames, same_pairs) = unmatched-eq_ok stack pairs found h in
    rw (no_frames, same_pairs) (finished n body (ground (arith, drop-nil raw n at_n)))
Run-of raw found (line ∷ lines) n body stack pairs at_n inside h =
    let (below, here, next) = drop-cons raw n line lines at_n in
    let (body', in_body, scanned) = pair-cases (scan_line body line) in
    elim (Bool-cases in_body) [
      | inl e ↦
          in_macro n body body' (if_lines stack) pairs below (ground (arith))
            (Run-of raw found lines (suc n) body' stack pairs next (omega arith) (ground arith))
      | inr e ↦
          let (outside, outside') = scan_outside body body' line (ground arith) in
          elim (Result-cases (conditional_step line n stack pairs)) [
            | inr (_, failed) ↦ ground arith
            | inl ((stack', pairs'), stepped) ↦
                let run =
                  Run-of raw found lines (suc n) body' stack' pairs' next (omega arith)
                    (ground arith) in
                elim (conditional_step-eq_ok line n stack stack' pairs pairs' stepped) [
                  | inl (d, frames, kept) ↦ rw outside (
                      opening n (if_lines stack) pairs below (ground arith) (ground arith)
                        (rw (outside', frames, kept) at run))
                  | inr (inl (d, a, frames, more)) ↦
                      rw (outside, frames)
                        (closing n a (if_lines stack') pairs below (ground arith) (ground arith)
                          (rw (outside', more) at run))
                  | inr (inr (d, frames, kept)) ↦ rw outside (
                      passing n (if_lines stack) pairs below (ground arith) (ground arith)
                        (rw (outside', frames, kept) at run))
                ]
          ]
    ]

pub Run-from_start :
    (raw : List Text) (pairs : List ConditionalPair)
    → collect_tree_conditional_pairs raw ≡ ok pairs
    → Run raw pairs 0 none [] []
unfolding collect_tree_conditional_pairs
Run-from_start raw pairs h = Run-of raw pairs raw 0 none [] [] refl (omega arith) h

-- The pairs that collectTreeConditionalPairs returns lie in the file, each with its %endif after its
-- %if on a line that closes a conditional, and any two of them are nested or apart.
pub collect_tree_conditional_pairs-nested :
    (raw : List Text) (pairs : List ConditionalPair)
    → collect_tree_conditional_pairs raw ≡ ok pairs
    → ((i k : ℕ)
        → pair_by_if pairs i ≡ some k
        → (i < k) × (k < length raw) × (conditional_depth_change (line_at raw k) ≡ closes))
      × ((i k j m : ℕ)
          → pair_by_if pairs i ≡ some k
          → pair_by_if pairs j ≡ some m
          → i < j
          → j ≤ k
          → m < k)
unfolding pair_by_if
collect_tree_conditional_pairs-nested raw pairs h =
    let start = Run-from_start raw pairs h in
    let inv = Run-Invariant raw pairs 0 none [] [] start start-Invariant in
    (
      λ i k e. (
        (inv.paired_below i k e).0,
        (inv.paired_below i k e).1,
        ground (arith, Run-closes raw pairs 0 none [] [] start i k e),
      ),
      inv.nested,
    )
