-- ===== src/ParMap/Invariant/Launch.antt =====
-- internal/utils/parmap/parmap.go: the steps of the launch loop and of the context.
use azldev.Prelude.{
  ℕ, suc, ◌≤◌, ◌<◌, List, ◌∷◌, Bool, true, false, some, none, ◌≡◌, refl, arith, ℤ, inl, inr, sym,
}
use azldev.Prelude.{length, ap, ◌∙◌, subst, if◌then◌else◌, ltb, ◌=?◌, Option-cases, Bool-cases}
use azldev.ParMap.{
  Slot, Main, checking, acquiring, cancelling, waiting, returned, State, Event, cancel, launch,
  work, effective_limit, is_running, one_if, launch_slot, cancel_slot, modify, step, main_step,
  notify_progress, running,
}
use azldev.ParMap.Slots.{All, modify-Changed, Split, Split-end, Split-le, Split-next}
use azldev.ParMap.Invariant.{
  is_finished, is_idle, rank, Good, Good-cancelled, launch_slot-Moved, cancel_slot-Moved,
}
use azldev.ParMap.Invariant.Steps.{
  Invariant, Stepped, Stopped, measure, main_rank, Placed, count, idle_test, count_down, one_more,
  work-Stepped,
}

module _ {In Out : Type 0} (limit : ℤ) (worker : Bool → In → Out) (items : List In) where
  abbrev Kept : State In Out → State In Out → Type 0
  Kept = Stepped limit worker items

  abbrev Valid : State In Out → Type 0
  Valid = Invariant limit worker items

  always_Stopped : (main : Main) → Stopped main true
  always_Stopped (cancelling idx) = refl
  always_Stopped (checking idx) = tt
  always_Stopped (acquiring idx) = tt
  always_Stopped waiting = tt
  always_Stopped returned = tt

  cancel-Stepped :
      (s : State In Out) → Valid s → s.is_done ≡ false → Kept s (record s { is_done = true })
  cancel-Stepped s inv undone = (
    record {
      good =
          Good-cancelled worker s.slots (subst (λ b. All (Good worker b) s.slots) undone inv.good);
      limited = inv.limited;
      counted = inv.counted;
      reported = inv.reported;
      placed = inv.placed;
      stopped = always_Stopped s.main;
      items_kept = inv.items_kept;
    },
    ground arith,
  )

  -- The launch loop moves on without a change of the items.
  moved-Stepped :
      (s : State In Out) (main : Main)
      → Valid s
      → Placed main s.slots
      → Stopped main s.is_done
      → measure (record s { main = main }) < measure s
      → Kept s (record s { main = main })
  moved-Stepped s main inv placed stopped less = (
    record {
      good = inv.good;
      limited = inv.limited;
      counted = inv.counted;
      reported = inv.reported;
      placed = placed;
      stopped = stopped;
      items_kept = inv.items_kept;
    },
    less,
  )

  all_placed :
      (slots : List (Slot In Out)) (idx : ℕ)
      → Split idle_test idx slots
      → length slots ≤ idx
      → count is_idle slots ≡ 0
  all_placed slots idx split le =
      let end : idx ≡ length slots =
        omega (arith, le, Split-le idle_test (λ slot. none) idx slots split) in
      Split-end idle_test (λ slot. none) slots (subst (λ n. Split idle_test n slots) end split)

  -- The test of the context, and the end of the loop.
  checked-Stepped :
      (s : State In Out) (idx : ℕ) (more : Bool)
      → Valid s
      → s.main ≡ checking idx
      → ltb idx (length s.slots) ≡ more
      → Kept s (record s {
        main = if more then if s.is_done then cancelling idx else acquiring idx else waiting;
      })
  checked-Stepped s idx more inv at_main h =
      let split = subst (λ main. Placed main s.slots) at_main inv.placed in
      let from = ap main_rank at_main in
      go more s.is_done refl h split (omega (arith, from)) (omega (arith, from))
        (omega (arith, from))
    where
      go :
          (more stop : Bool)
          → s.is_done ≡ stop
          → ltb idx (length s.slots) ≡ more
          → Split idle_test idx s.slots
          → measure (record s { main = cancelling idx }) < measure s
          → measure (record s { main = acquiring idx }) < measure s
          → measure (record s { main = waiting }) < measure s
          → Kept s (record s {
            main = if more then if stop then cancelling idx else acquiring idx else waiting;
          })
      go true true done h split a b c = moved-Stepped s (cancelling idx) inv split done a
      go true false done h split a b c =
          moved-Stepped s (acquiring idx) inv (split, ground arith) tt b
      go false stop done h split a b c =
          moved-Stepped s waiting inv (all_placed s.slots idx split (ground arith)) tt c

  launched-Stepped :
      (s : State In Out) (idx : ℕ) (slots : List (Slot In Out))
      → Valid s
      → s.main ≡ acquiring idx
      → count is_running s.slots < effective_limit limit
      → modify idx (λ slot. launch_slot slot.phase slot) s.slots ≡ some slots
      → Kept s (record s { main = checking (suc idx); slots = slots })
  launched-Stepped s idx slots inv at_main free e =
      let (split, lt) = subst (λ main. Placed main s.slots) at_main inv.placed in
      let changed = modify-Changed idx (λ slot. launch_slot slot.phase slot) s.slots slots e in
      let moved = launch_slot-Moved worker s.is_done changed.old changed.new changed.result in
      (
        record {
          good =
              changed.all_new (Good worker s.is_done) inv.good
                (moved.good (changed.old_one (Good worker s.is_done) inv.good));
          limited = omega (
            arith,
            free,
            moved.running_after,
            changed.totals (λ slot. one_if (is_running slot.phase)),
          );
          counted = omega (
            arith,
            inv.counted,
            moved.finished_after,
            changed.totals (λ slot. one_if (is_finished slot.phase)),
          );
          reported = inv.reported;
          placed =
              Split-next idle_test (λ slot. launch_slot slot.phase slot)
                (λ x y h. (launch_slot-Moved worker s.is_done x y h).is_idle_after) idx s.slots
                slots e split;
          stopped = tt;
          items_kept = changed.mapped (λ slot. slot.item) moved.item ∙ inv.items_kept;
        },
        omega (arith, moved.less, ap main_rank at_main, changed.totals (λ slot. rank slot.phase)),
      )

  cancelled-Stepped :
      (s : State In Out) (idx : ℕ) (slots : List (Slot In Out))
      → Valid s
      → s.main ≡ cancelling idx
      → s.is_done ≡ true
      → modify idx (λ slot. cancel_slot slot.phase slot) s.slots ≡ some slots
      → Kept s (notify_progress (record s { main = cancelling (suc idx); slots = slots }))
  unfolding notify_progress
  cancelled-Stepped s idx slots inv at_main done e =
      let split = subst (λ main. Placed main s.slots) at_main inv.placed in
      let changed = modify-Changed idx (λ slot. cancel_slot slot.phase slot) s.slots slots e in
      let moved = cancel_slot-Moved worker changed.old changed.new changed.result in
      let good : All (Good worker true) s.slots =
        subst (λ b. All (Good worker b) s.slots) done inv.good in
      (
        record {
          good =
              subst (λ b. All (Good worker b) slots) (sym done)
                (changed.all_new (Good worker true) good
                  (moved.good (changed.old_one (Good worker true) good)));
          limited = omega (
            arith,
            inv.limited,
            moved.running_after,
            changed.totals (λ slot. one_if (is_running slot.phase)),
          );
          counted = omega (
            arith,
            inv.counted,
            moved.finished_after,
            changed.totals (λ slot. one_if (is_finished slot.phase)),
          );
          reported =
              subst (λ n. n ∷ s.progress ≡ count_down n) (one_more s.completed)
                (ap (λ calls. suc s.completed ∷ calls) inv.reported);
          placed =
              Split-next idle_test (λ slot. cancel_slot slot.phase slot)
                (λ x y h. (cancel_slot-Moved worker x y h).is_idle_after) idx s.slots slots e split;
          stopped = done;
          items_kept = changed.mapped (λ slot. slot.item) moved.item ∙ inv.items_kept;
        },
        omega (arith, moved.less, ap main_rank at_main, changed.totals (λ slot. rank slot.phase)),
      )

  main-Stepped :
      (main : Main) (s s' : State In Out)
      → Valid s
      → s.main ≡ main
      → main_step limit worker main s ≡ some s'
      → Kept s s'
  unfolding main_step
  main-Stepped (checking idx) s s' inv at_main h =
      let same : record s {
        main =
            if ltb idx (length s.slots)
            then if s.is_done then cancelling idx else acquiring idx
            else waiting;
      }
          ≡ s' =
        ground arith in
      subst (Kept s) same (checked-Stepped s idx (ltb idx (length s.slots)) inv at_main refl)
  main-Stepped (acquiring idx) s s' inv at_main h =
      elim (Option-cases (modify idx (λ slot. launch_slot slot.phase slot) s.slots)) [
        | inl e ↦ ground arith
        | inr (slots, e) ↦ elim (Bool-cases (ltb (running s) (effective_limit limit))) [
          | inr full ↦ ground arith
          | inl free ↦
              let same : record s { main = checking (suc idx); slots = slots } ≡ s' =
                ground arith in
              subst (Kept s) same (launched-Stepped s idx slots inv at_main (ground arith) e)
        ]
      ]
  main-Stepped (cancelling idx) s s' inv at_main h = elim (Bool-cases (ltb idx (length s.slots))) [
    | inr end ↦
        let split = subst (λ main. Placed main s.slots) at_main inv.placed in
        let same : record s { main = waiting } ≡ s' = ground arith in
        subst (Kept s) same (
          moved-Stepped s waiting inv (all_placed s.slots idx split (ground arith)) tt
            (omega (arith, ap main_rank at_main)))
    | inl more ↦ elim (Option-cases (modify idx (λ slot. cancel_slot slot.phase slot) s.slots)) [
      | inl e ↦ ground arith
      | inr (slots, e) ↦
          let done = subst (λ main. Stopped main s.is_done) at_main inv.stopped in
          let same : notify_progress (record s { main = cancelling (suc idx); slots = slots })
              ≡ s' =
            ground arith in
          subst (Kept s) same (cancelled-Stepped s idx slots inv at_main done e)
    ]
  ]
  main-Stepped waiting s s' inv at_main h = elim (Bool-cases (running s =? 0)) [
    | inr busy ↦ ground arith
    | inl free ↦
        let none_idle = subst (λ main. Placed main s.slots) at_main inv.placed in
        let same : record s { main = returned } ≡ s' = ground arith in
        subst (Kept s) same (
          moved-Stepped s returned inv (none_idle, ground arith) tt
            (omega (arith, ap main_rank at_main)))
  ]
  main-Stepped returned s s' inv at_main h = ground arith

  pub step-Stepped :
      (event : Event) (s s' : State In Out)
      → Valid s
      → step limit worker event s ≡ some s'
      → Kept s s'
  unfolding step
  step-Stepped cancel s s' inv h = elim (Bool-cases s.is_done) [
    | inl done ↦ ground arith
    | inr undone ↦
        let same : record s { is_done = true } ≡ s' = ground arith in
        subst (Kept s) same (cancel-Stepped s inv undone)
  ]
  step-Stepped launch s s' inv h = main-Stepped s.main s s' inv refl h
  step-Stepped (work i) s s' inv h = work-Stepped limit worker items i s s' inv h
