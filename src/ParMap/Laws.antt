-- ===== src/ParMap/Laws.antt =====
-- internal/utils/parmap/parmap.go: the runs of Map, for every order of its steps.
use azldev.Prelude.{
  ◌+◌, ◌*◌, ◌≤◌, List, [], ◌∷◌, Bool, true, false, some, ◌≡◌, refl, arith, ℤ, inl, inr, sym,
}
use azldev.Prelude.{length, ap, subst, map, Option-cases, Bool-cases}
use azldev.ParMap.{
  MapResult, Phase, idle, launched, working, leaving, finished, Slot, returned, State, Event,
  effective_limit, is_running, total, step, run, running, idle_slots, start, first_main,
}
use azldev.ParMap.Slots.{All}
use azldev.ParMap.Invariant.{is_finished, is_idle, rank, Good, GoodAt, Outcome}
use azldev.ParMap.Invariant.Steps.{
  Invariant, Stopped, measure, main_rank, Placed, count, idle_test, count_down,
}
use azldev.ParMap.Invariant.Launch.{step-Stepped}

module _ {In Out : Type 0} (limit : ℤ) (worker : Bool → In → Out) (items : List In) where
  abbrev Valid : State In Out → Type 0
  Valid = Invariant limit worker items

  abbrev at_first : List In → List (Slot In Out)
  at_first = idle_slots

  idle_slots-Good : (items : List In) → All (Good worker false) (at_first items)
  unfolding idle_slots
  idle_slots-Good [] = tt
  idle_slots-Good (item ∷ items) = ((refl, refl), idle_slots-Good items)

  idle_slots-idle : (items : List In) → All (λ slot. idle_test slot ≡ true) (at_first items)
  unfolding idle_slots is_idle
  idle_slots-idle [] = tt
  idle_slots-idle (item ∷ items) = (refl, idle_slots-idle items)

  count-idle_slots :
      (items : List In)
      → (count is_running (at_first items) ≡ 0)
        × (count is_finished (at_first items) ≡ 0)
        × (total (λ slot. rank slot.phase) (at_first items) ≡ 5 * length items)
        × (map (λ slot. slot.item) (at_first items) ≡ items)
  unfolding idle_slots is_running is_finished rank
  count-idle_slots [] = (refl, refl, refl, refl)
  count-idle_slots (item ∷ items) =
      let (a, b, c, d) = count-idle_slots items in
      (omega (arith, a), omega (arith, b), omega (arith, c), ap (λ rest. item ∷ rest) d)

  first-Placed : (items : List In) → Placed (first_main items) (at_first items)
  unfolding idle_slots
  first-Placed [] = (refl, refl)
  first-Placed (item ∷ items) = idle_slots-idle (item ∷ items)

  first_Stopped : (items : List In) → Stopped (first_main items) false
  first_Stopped [] = tt
  first_Stopped (item ∷ items) = tt

  first_rank : (items : List In) → main_rank (first_main items) ≤ 3
  first_rank [] = omega arith
  first_rank (item ∷ items) = omega arith

  start-Invariant : Valid (start items)
  unfolding start
  start-Invariant =
      let (none_running, none_finished, ranks, same) = count-idle_slots items in
      record {
        good = idle_slots-Good items;
        limited = omega (arith, none_running);
        counted = sym none_finished;
        reported = refl;
        placed = first-Placed items;
        stopped = first_Stopped items;
        items_kept = same;
      }

  run-Invariant :
      (events : List Event) (s s' : State In Out)
      → Valid s
      → run limit worker events s ≡ some s'
      → Valid s' × (measure s' + length events ≤ measure s)
  unfolding run
  run-Invariant [] s s' inv h =
      let same : s ≡ s' = ground arith in
      subst (λ t. Valid t × (measure t + 0 ≤ measure s)) same (inv, omega arith)
  run-Invariant (event ∷ events) s s' inv h = elim (Option-cases (step limit worker event s)) [
    | inl e ↦ ground arith
    | inr (next, e) ↦
        let (inv', less) = step-Stepped limit worker items event s next inv e in
        let (inv'', less') = run-Invariant events next s' inv' (ground arith) in
        (inv'', omega (arith, less, less'))
  ]

  -- Every state that a run of Map reaches.
  pub reached :
      (events : List Event) (s : State In Out)
      → run limit worker events (start items) ≡ some s
      → Valid s × (measure s + length events ≤ 5 * length items + 4)
  unfolding start
  reached events s h =
      let (none_running, none_finished, ranks, same) = count-idle_slots items in
      let (inv, less) = run-Invariant events (start items) s start-Invariant h in
      (inv, omega (arith, less, ranks, first_rank items))

  -- A finished item has its result.
  phase-Outcome :
      (phase : Phase) (is_done : Bool) (item : In) (result : MapResult Out)
      → is_idle phase ≡ false
      → is_running phase ≡ false
      → GoodAt worker phase is_done item result
      → Outcome worker is_done item result × (is_finished phase ≡ true)
  unfolding is_idle is_running is_finished
  phase-Outcome idle is_done item result h h' good = ground arith
  phase-Outcome launched is_done item result h h' good = ground arith
  phase-Outcome working is_done item result h h' good = ground arith
  phase-Outcome leaving is_done item result h h' good = ground arith
  phase-Outcome finished is_done item result h h' good = (good, refl)

  -- The results of items that have all finished, in the order of the items.
  abbrev pub Results : Bool → List (Slot In Out) → Type 0
  Results is_done slots = All (λ slot. Outcome worker is_done slot.item slot.result) slots

  slots-Results :
      (is_done : Bool) (slots : List (Slot In Out))
      → All (Good worker is_done) slots
      → count is_idle slots ≡ 0
      → count is_running slots ≡ 0
      → Results is_done slots × (count is_finished slots ≡ length slots)
  slots-Results is_done [] good none_idle none_running = (tt, refl)
  slots-Results is_done (slot ∷ slots) (here, good) none_idle none_running =
      let (outcome, ended) =
        phase-Outcome slot.phase is_done slot.item slot.result (ground arith) (ground arith) here in
      let (results, all_ended) = slots-Results is_done slots good (ground arith) (ground arith) in
      ((outcome, results), ground arith)

  length-items :
      (slots : List (Slot In Out)) → length (map (λ slot. slot.item) slots) ≡ length slots
  length-items [] = refl
  length-items (slot ∷ slots) = omega (arith, length-items slots)

  finished_le : (slots : List (Slot In Out)) → count is_finished slots ≤ length slots
  finished_le [] = omega arith
  finished_le (slot ∷ slots) = elim (Bool-cases (is_finished slot.phase)) [
    | inl e ↦ ground (arith, finished_le slots)
    | inr e ↦ ground (arith, finished_le slots)
  ]

  -- At every moment of every run there are at most as many goroutines as the limit, taken as at least 1,
  -- and onProgress was called with 1, 2 and so on, in this order, up to at most the number of items.
  pub run-limit :
      (events : List Event) (s : State In Out)
      → run limit worker events (start items) ≡ some s
      → (running s ≤ effective_limit limit)
        × (s.progress ≡ count_down s.completed)
        × (s.completed ≤ length items)
  run-limit events s h =
      let (inv, less) = reached events s h in
      (
        inv.limited,
        inv.reported,
        omega (
          arith,
          inv.counted,
          finished_le s.slots,
          length-items s.slots,
          ap length inv.items_kept,
        ),
      )

  -- No run has more than five steps for each item, and four: Map cannot go on for ever.
  pub run-length :
      (events : List Event) (s : State In Out)
      → run limit worker events (start items) ≡ some s
      → length events ≤ 5 * length items + 4
  run-length events s h = let (inv, less) = reached events s h in omega (arith, less)

  -- When Map has returned, the results are in the order of the items, onProgress was called once for each
  -- of them, and each result is either cancelled, with no value and only if the context was done, or the
  -- value of the worker on the item.
  pub run-Results :
      (events : List Event) (s : State In Out)
      → run limit worker events (start items) ≡ some s
      → s.main ≡ returned
      → (map (λ slot. slot.item) s.slots ≡ items)
        × Results s.is_done s.slots
        × (s.progress ≡ count_down (length items))
  run-Results events s h at_main =
      let (inv, less) = reached events s h in
      let (none_idle, none_running) = subst (λ main. Placed main s.slots) at_main inv.placed in
      let (results, all_ended) = slots-Results s.is_done s.slots inv.good none_idle none_running in
      let total_completed : s.completed ≡ length items =
        omega (arith, inv.counted, all_ended, length-items s.slots, ap length inv.items_kept) in
      (inv.items_kept, results, subst (λ n. s.progress ≡ count_down n) total_completed inv.reported)
