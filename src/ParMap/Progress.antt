-- ===== src/ParMap/Progress.antt =====
-- internal/utils/parmap/parmap.go: Map always has a next step until it returns, and without a
-- cancellation its results are those of a sequential map.
use azldev.Prelude.{
  ℕ, zero, suc, ◌<◌, List, [], ◌∷◌, Bool, true, false, Option, some, none, ◌≡◌, refl, arith, ℤ, pos,
  negsuc, inl, inr, ◌⊎◌, sym,
}
use azldev.Prelude.{length, ap, ◌∙◌, subst, map, ltb, ◌=?◌, Option-cases, Bool-cases, ◌≢◌}
use azldev.ParMap.{
  Phase, idle, launched, working, leaving, finished, Slot, Main, checking, acquiring, cancelling,
  waiting, returned, State, Event, cancel, launch, work, effective_limit, is_running, work_phase,
  work_slot, work_step, launch_slot, cancel_slot, step, run, main_step, running, start,
}
use azldev.ParMap.Slots.{Split-modify, modify-some}
use azldev.ParMap.Invariant.{is_idle}
use azldev.ParMap.Invariant.Steps.{Placed, idle_test}
use azldev.ParMap.Laws.{reached, run-Results, Results}

effective_limit-gt_0 : (limit : ℤ) → 0 < effective_limit limit
unfolding effective_limit
effective_limit-gt_0 (pos zero) = omega arith
effective_limit-gt_0 (pos (suc n)) = omega arith
effective_limit-gt_0 (negsuc n) = omega arith

module _ {In Out : Type 0} (limit : ℤ) (worker : Bool → In → Out) (items : List In) where
  -- A step of Map itself, not of the context.
  abbrev pub GoesOn : State In Out → Type 0
  GoesOn s =
      (event : Event) × (s' : State In Out) × (event ≢ cancel)
      × (step limit worker event s ≡ some s')

  phase-works :
      (is_done : Bool) (phase : Phase) (slot : Slot In Out)
      → is_running phase ≡ true
      → (y : Slot In Out) × (work_phase worker is_done phase slot ≡ some y)
  unfolding is_running work_phase
  phase-works is_done idle slot h = ground arith
  phase-works true launched slot h = (_, refl)
  phase-works false launched slot h = (_, refl)
  phase-works is_done working slot h = (_, refl)
  phase-works is_done leaving slot h = (_, refl)
  phase-works is_done finished slot h = ground arith

  launches :
      (slot : Slot In Out)
      → idle_test slot ≡ true
      → (y : Slot In Out) × (launch_slot slot.phase slot ≡ some y)
  unfolding launch_slot is_idle
  launches slot h = launched_at slot.phase slot h
    where
      launched_at :
          (phase : Phase) (slot : Slot In Out)
          → is_idle phase ≡ true
          → (y : Slot In Out) × (launch_slot phase slot ≡ some y)
      launched_at idle slot h = (_, refl)
      launched_at launched slot h = ground arith
      launched_at working slot h = ground arith
      launched_at leaving slot h = ground arith
      launched_at finished slot h = ground arith

  cancels :
      (slot : Slot In Out)
      → idle_test slot ≡ true
      → (y : Slot In Out) × (cancel_slot slot.phase slot ≡ some y)
  unfolding cancel_slot is_idle
  cancels slot h = cancelled_at slot.phase slot h
    where
      cancelled_at :
          (phase : Phase) (slot : Slot In Out)
          → is_idle phase ≡ true
          → (y : Slot In Out) × (cancel_slot phase slot ≡ some y)
      cancelled_at idle slot h = (_, refl)
      cancelled_at launched slot h = ground arith
      cancelled_at working slot h = ground arith
      cancelled_at leaving slot h = ground arith
      cancelled_at finished slot h = ground arith

  abbrev is_cancel : Event → Bool
  is_cancel cancel = true
  is_cancel launch = false
  is_cancel (work i) = false

  work_ne : (i : ℕ) → work i ≢ cancel
  work_ne i e = ground (arith, ap is_cancel e)

  launch_ne : launch ≢ cancel
  launch_ne e = ground (arith, ap is_cancel e)

  not_stuck :
      (event : Event) (s : State In Out)
      → event ≢ cancel
      → (step limit worker event s ≡ none → ⊥)
      → GoesOn s
  not_stuck event s own moves = elim (Option-cases (step limit worker event s)) [
    | inl e ↦ elim (moves e) [ ]
    | inr (s', e) ↦ (event, s', own, e)
  ]

  main_not_stuck :
      (main : Main) (s : State In Out)
      → s.main ≡ main
      → (main_step limit worker main s ≡ none → ⊥)
      → GoesOn s
  unfolding step
  main_not_stuck main s at_main moves =
      not_stuck launch s launch_ne
        (λ e. moves (sym (ap (λ m. main_step limit worker m s) at_main) ∙ e))

  -- A goroutine can always move.
  running-GoesOn : (s : State In Out) → 0 < running s → GoesOn s
  unfolding step work_step work_slot
  running-GoesOn s busy =
      let (i, ys, e) =
        modify-some (λ slot. is_running slot.phase) (work_slot worker s.is_done)
          (λ slot h. phase-works s.is_done slot.phase slot h) s.slots busy in
      not_stuck (work i) s (work_ne i) (λ e'. ground arith)

  main-GoesOn :
      (main : Main) (s : State In Out)
      → s.main ≡ main
      → Placed main s.slots
      → (s.main ≡ returned) ⊎ GoesOn s
  unfolding main_step
  main-GoesOn (checking idx) s at_main placed =
      inr (main_not_stuck (checking idx) s at_main (λ e. ground arith))
  main-GoesOn (acquiring idx) s at_main (split, lt) =
      elim (Bool-cases (ltb (running s) (effective_limit limit))) [
        | inl free ↦
            let (ys, e) =
              Split-modify idle_test (λ slot. launch_slot slot.phase slot) launches idx s.slots lt
                split in
            inr (main_not_stuck (acquiring idx) s at_main (λ e'. ground arith))
        | inr full ↦ inr (running-GoesOn s (ground (arith, effective_limit-gt_0 limit)))
      ]
  main-GoesOn (cancelling idx) s at_main split = elim (Bool-cases (ltb idx (length s.slots))) [
    | inl more ↦
        let (ys, e) =
          Split-modify idle_test (λ slot. cancel_slot slot.phase slot) cancels idx s.slots
            (ground arith) split in
        inr (main_not_stuck (cancelling idx) s at_main (λ e'. ground arith))
    | inr end ↦ inr (main_not_stuck (cancelling idx) s at_main (λ e'. ground arith))
  ]
  main-GoesOn waiting s at_main placed = elim (Bool-cases (running s =? 0)) [
    | inl free ↦ inr (main_not_stuck waiting s at_main (λ e. ground arith))
    | inr busy ↦ inr (running-GoesOn s (ground arith))
  ]
  main-GoesOn returned s at_main placed = inl at_main

  -- At every moment of every run, either Map has returned or its loop or one of its goroutines can make
  -- a step, whether the context is done or not: it is never blocked for good.
  pub run-GoesOn :
      (events : List Event) (s : State In Out)
      → run limit worker events (start items) ≡ some s
      → (s.main ≡ returned) ⊎ GoesOn s
  run-GoesOn events s h =
      let (inv, less) = reached limit worker items events s h in
      main-GoesOn s.main s refl inv.placed

  abbrev pub values : List (Slot In Out) → List (Option Out)
  values slots = map (λ slot. slot.result.value) slots

  undone-values :
      (slots : List (Slot In Out))
      → Results limit worker items false slots
      → values slots ≡ map (λ item. some (worker false item)) (map (λ slot. slot.item) slots)
  undone-values [] results = refl
  undone-values (slot ∷ slots) (inl (cancelled, blank, done), results) = ground arith
  undone-values (slot ∷ slots) (inr (b, kept, value, same), results) =
      let here : slot.result.value ≡ some (worker false slot.item) =
        value ∙ ap (λ c. some (worker c slot.item)) (same refl) in
      ap (λ v. v ∷ values slots) here
      ∙ ap (λ vs. some (worker false slot.item) ∷ vs) (undone-values slots results)

  -- When Map has returned and the context was never done, its values are those of a sequential map of
  -- the worker over the items, whatever the order of the steps was.
  pub values-run :
      (events : List Event) (s : State In Out)
      → run limit worker events (start items) ≡ some s
      → s.main ≡ returned
      → s.is_done ≡ false
      → values s.slots ≡ map (λ item. some (worker false item)) items
  values-run events s h at_main undone =
      let (same, results, reported) = run-Results limit worker items events s h at_main in
      undone-values s.slots (subst (λ b. Results limit worker items b s.slots) undone results)
      ∙ ap (map (λ item. some (worker false item))) same
