-- ===== src/ParMap/Invariant/Steps.antt =====
-- internal/utils/parmap/parmap.go: every step of Map keeps what holds of its state, and comes nearer to
-- the end.
use azldev.Prelude.{
  ℕ, zero, suc, ◌+◌, ◌≤◌, ◌<◌, List, [], ◌∷◌, Bool, true, false, some, ◌≡◌, refl, arith, ℤ, inl,
  inr,
}
use azldev.Prelude.{length, ap, ◌∙◌, subst, map, if◌then◌else◌, Option-cases, get_elem?}
use azldev.ParMap.{
  Phase, Slot, Main, checking, acquiring, cancelling, waiting, returned, State, effective_limit,
  is_running, is_leaving, one_if, work_slot, modify, total, work_step, notify_progress, phase_of,
}
use azldev.ParMap.Slots.{All, modify-Changed, Split, Split-keep}
use azldev.ParMap.Invariant.{is_finished, is_idle, rank, Good, work_slot-Worked}

-- n, n - 1, ..., 1
abbrev pub count_down : ℕ → List ℕ
count_down zero = []
count_down (suc n) = suc n ∷ count_down n

abbrev pub main_rank : Main → ℕ
main_rank (checking idx) = 3
main_rank (acquiring idx) = 2
main_rank (cancelling idx) = 2
main_rank waiting = 1
main_rank returned = 0

pub one_more : (n : ℕ) → suc n ≡ n + 1
one_more n = omega arith

-- The launch loop cancels items only after the context.
abbrev pub Stopped : Main → Bool → Type 0
Stopped (cancelling idx) is_done = is_done ≡ true
Stopped (checking idx) is_done = Unit
Stopped (acquiring idx) is_done = Unit
Stopped waiting is_done = Unit
Stopped returned is_done = Unit

abbrev pub not_done : Bool → ℕ
not_done true = 0
not_done false = 1

module _ {In Out : Type 0} where
  abbrev pub idle_test : Slot In Out → Bool
  idle_test slot = is_idle slot.phase

  abbrev pub count : (Phase → Bool) → List (Slot In Out) → ℕ
  count test slots = total (λ slot. one_if (test slot.phase)) slots

  -- The items from the launch loop's index on are idle, and no other ones.
  abbrev pub Placed : Main → List (Slot In Out) → Type 0
  Placed (checking idx) slots = Split idle_test idx slots
  Placed (acquiring idx) slots = Split idle_test idx slots × (idx < length slots)
  Placed (cancelling idx) slots = Split idle_test idx slots
  Placed waiting slots = count is_idle slots ≡ 0
  Placed returned slots = (count is_idle slots ≡ 0) × (count is_running slots ≡ 0)

  -- A bound on the steps that are left.
  abbrev pub measure : State In Out → ℕ
  measure s = total (λ slot. rank slot.phase) s.slots + main_rank s.main + not_done s.is_done

module _ {In Out : Type 0} (limit : ℤ) (worker : Bool → In → Out) (items : List In) where
  pub record Invariant (s : State In Out) : Type 0 where
    pub good : All (Good worker s.is_done) s.slots
    pub limited : count is_running s.slots ≤ effective_limit limit
    pub counted : s.completed ≡ count is_finished s.slots
    pub reported : s.progress ≡ count_down s.completed
    pub placed : Placed s.main s.slots
    pub stopped : Stopped s.main s.is_done
    pub items_kept : map (λ slot. slot.item) s.slots ≡ items

  -- A step and what it does to the bound.
  abbrev pub Stepped : State In Out → State In Out → Type 0
  Stepped s s' = Invariant s' × (measure s' < measure s)

  still_busy :
      (is_done : Bool) (x y : Slot In Out)
      → work_slot worker is_done x ≡ some y
      → (idle_test x ≡ false) × (idle_test y ≡ false)
  still_busy is_done x y e =
      let worked = work_slot-Worked worker is_done x y e in (worked.was_idle, worked.is_idle_after)

  work-idle :
      (i : ℕ) (is_done : Bool) (xs ys : List (Slot In Out))
      → modify i (work_slot worker is_done) xs ≡ some ys
      → count is_idle xs ≡ 0
      → count is_idle ys ≡ 0
  work-idle i is_done xs ys h none_idle =
      let changed = modify-Changed i (work_slot worker is_done) xs ys h in
      let worked = work_slot-Worked worker is_done changed.old changed.new changed.result in
      let after : one_if (is_idle changed.new.phase) ≡ 0 = rw worked.is_idle_after refl in
      omega (arith, none_idle, after, changed.totals (λ slot. one_if (idle_test slot)))

  Placed-work :
      (main : Main) (i : ℕ) (is_done : Bool) (xs ys : List (Slot In Out))
      → modify i (work_slot worker is_done) xs ≡ some ys
      → Placed main xs
      → Placed main ys
  Placed-work (checking idx) i is_done xs ys h split =
      Split-keep idle_test (work_slot worker is_done) (still_busy is_done) idx i xs ys h split
  Placed-work (acquiring idx) i is_done xs ys h (split, lt) = (
    Split-keep idle_test (work_slot worker is_done) (still_busy is_done) idx i xs ys h split,
    omega (arith, lt, (modify-Changed i (work_slot worker is_done) xs ys h).lengths),
  )
  Placed-work (cancelling idx) i is_done xs ys h split =
      Split-keep idle_test (work_slot worker is_done) (still_busy is_done) idx i xs ys h split
  Placed-work waiting i is_done xs ys h none_idle = work-idle i is_done xs ys h none_idle
  Placed-work returned i is_done xs ys h (none_idle, none_running) =
      let changed = modify-Changed i (work_slot worker is_done) xs ys h in
      let worked = work_slot-Worked worker is_done changed.old changed.new changed.result in
      let before : one_if (is_running changed.old.phase) ≡ 1 = rw worked.was_running refl in
      (
        work-idle i is_done xs ys h none_idle,
        omega (
          arith,
          none_running,
          before,
          worked.runs,
          changed.totals (λ slot. one_if (is_running slot.phase)),
        ),
      )

  -- What the step of a goroutine keeps, apart from the counter and its report.
  record Kept (s : State In Out) (slots : List (Slot In Out)) (leaves : Bool) : Type 0 where
    good : All (Good worker s.is_done) slots
    limited : count is_running slots ≤ effective_limit limit
    finishes : count is_finished slots ≡ count is_finished s.slots + one_if leaves
    placed : Placed s.main slots
    items_kept : map (λ slot. slot.item) slots ≡ items
    less : total (λ slot. rank slot.phase) slots < total (λ slot. rank slot.phase) s.slots

  work-Kept :
      (i : ℕ) (s : State In Out) (slots : List (Slot In Out))
      → Invariant s
      → modify i (work_slot worker s.is_done) s.slots ≡ some slots
      → Kept s slots (is_leaving (phase_of (get_elem? s.slots i)))
  work-Kept i s slots inv e =
      let changed = modify-Changed i (work_slot worker s.is_done) s.slots slots e in
      let worked = work_slot-Worked worker s.is_done changed.old changed.new changed.result in
      let here : phase_of (get_elem? s.slots i) ≡ changed.old.phase = ap phase_of changed.old_at in
      let was_running : one_if (is_running changed.old.phase) ≡ 1 = rw worked.was_running refl in
      let was_finished : one_if (is_finished changed.old.phase) ≡ 0 = rw worked.was_finished refl in
      record {
        good =
            changed.all_new (Good worker s.is_done) inv.good
              (worked.good (changed.old_one (Good worker s.is_done) inv.good));
        limited = omega (
          arith,
          inv.limited,
          was_running,
          worked.runs,
          changed.totals (λ slot. one_if (is_running slot.phase)),
        );
        finishes = omega (
          arith,
          was_finished,
          worked.finishes,
          ap (λ phase. one_if (is_leaving phase)) here,
          changed.totals (λ slot. one_if (is_finished slot.phase)),
        );
        placed = Placed-work s.main i s.is_done s.slots slots e inv.placed;
        items_kept = changed.mapped (λ slot. slot.item) worked.item ∙ inv.items_kept;
        less = omega (arith, worked.less, changed.totals (λ slot. rank slot.phase));
      }

  noted-Stepped :
      (s : State In Out) (slots : List (Slot In Out)) (leaves : Bool)
      → Invariant s
      → Kept s slots leaves
      → Stepped s (
          if leaves
          then notify_progress (record s { slots = slots })
          else record s { slots = slots })
  unfolding notify_progress
  noted-Stepped s slots true inv kept = (
    record {
      good = kept.good;
      limited = kept.limited;
      counted = omega (arith, inv.counted, kept.finishes);
      reported =
          subst (λ n. n ∷ s.progress ≡ count_down n) (one_more s.completed)
            (ap (λ calls. suc s.completed ∷ calls) inv.reported);
      placed = kept.placed;
      stopped = inv.stopped;
      items_kept = kept.items_kept;
    },
    omega (arith, kept.less),
  )
  noted-Stepped s slots false inv kept = (
    record {
      good = kept.good;
      limited = kept.limited;
      counted = omega (arith, inv.counted, kept.finishes);
      reported = inv.reported;
      placed = kept.placed;
      stopped = inv.stopped;
      items_kept = kept.items_kept;
    },
    omega (arith, kept.less),
  )

  pub work-Stepped :
      (i : ℕ) (s s' : State In Out) → Invariant s → work_step worker i s ≡ some s' → Stepped s s'
  unfolding work_step
  work-Stepped i s s' inv h = elim (Option-cases (modify i (work_slot worker s.is_done) s.slots)) [
    | inl e ↦ ground arith
    | inr (slots, e) ↦
        let leaves = is_leaving (phase_of (get_elem? s.slots i)) in
        let same : (if leaves
              then notify_progress (record s { slots = slots })
              else record s { slots = slots })
            ≡ s' =
          ground arith in
        subst (Stepped s) same (noted-Stepped s slots leaves inv (work-Kept i s slots inv e))
  ]
