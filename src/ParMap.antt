-- ===== src/ParMap.antt =====
-- internal/utils/parmap/parmap.go: Map, as steps of its launch loop, of its goroutines and of the
-- context, in any order. A goroutine's slot in the errgroup is taken by `launch` and free once the
-- goroutine has finished; an update of `completed` with its callback is one step, under the mutex.
-- Map is taken with an onProgress.
pub mod Slots
pub mod Invariant
pub mod Laws
pub mod Progress
mod Tests
use azldev.Prelude.{
  ℕ, zero, suc, ◌+◌, List, [], ◌∷◌, Bool, true, false, Option, some, none, ℤ, pos, negsuc,
}
use azldev.Prelude.{if◌then◌else◌, ltb, length, ◌=?◌, get_elem?}

-- Result, with its value once there is one.
pub record MapResult (Out : Type 0) : Type 0 where
  pub value : Option Out
  pub cancelled : Bool

-- How far the goroutine of an item is: not launched, launched, in its worker, before its deferred
-- notifyProgress, or finished. An item that the launch loop cancels is finished too.
pub data Phase : Type 0 where
  idle launched working leaving finished : Phase

-- An item, its goroutine and its place in the results.
pub record Slot (In Out : Type 0) : Type 0 where
  pub item : In
  pub phase : Phase
  pub result : MapResult Out

-- Where the launch loop is, for an index: before the test of the context, before group.Go, or in the
-- loop that cancels the rest; then in group.Wait, and at the end.
pub data Main : Type 0 where
  checking acquiring cancelling : ℕ → Main
  waiting returned : Main

pub record State (In Out : Type 0) : Type 0 where
  pub main : Main
  pub slots : List (Slot In Out)
  pub is_done : Bool
  pub completed : ℕ
  -- The calls of onProgress, the last one first.
  pub progress : List ℕ

-- Who moves next: the context is cancelled, the launch loop moves, or the goroutine of an item.
pub data Event : Type 0 where
  cancel launch : Event
  work : ℕ → Event

-- The limit, at least 1.
unfoldable pub effective_limit : ℤ → ℕ
effective_limit (pos zero) = 1
effective_limit (pos (suc n)) = suc n
effective_limit (negsuc n) = 1

unfoldable pub is_running : Phase → Bool
is_running idle = false
is_running launched = true
is_running working = true
is_running leaving = true
is_running finished = false

module _ {A : Type 0} where
  -- One element is replaced, if it may be.
  unfoldable pub modify : ℕ → (A → Option A) → List A → Option (List A)
  modify i change [] = none
  modify zero change (x ∷ xs) = elim (change x) [ none ↦ none | some y ↦ some (y ∷ xs) ]
  modify (suc i) change (x ∷ xs) = elim (modify i change xs) [
    | none ↦ none
    | some ys ↦ some (x ∷ ys)
  ]

  abbrev pub total : (A → ℕ) → List A → ℕ
  total weight [] = 0
  total weight (x ∷ xs) = weight x + total weight xs

abbrev pub one_if : Bool → ℕ
one_if true = 1
one_if false = 0

-- The places of the items in the results, at first.
unfoldable pub idle_slots : {In Out : Type 0} → List In → List (Slot In Out)
idle_slots [] = []
idle_slots (item ∷ items) =
    record { item = item; phase = idle; result = record { value = none; cancelled = false } }
    ∷ idle_slots items

abbrev first_main : {In : Type 0} → List In → Main
first_main [] = returned
first_main (item ∷ items) = checking 0

-- Map before the first round of its loop; no items return at once.
unfoldable pub start : {In Out : Type 0} → List In → State In Out
start items = record {
  main = first_main items;
  slots = idle_slots items;
  is_done = false;
  completed = 0;
  progress = [];
}

unfoldable pub is_leaving : Phase → Bool
is_leaving leaving = true
is_leaving idle = false
is_leaving launched = false
is_leaving working = false
is_leaving finished = false

module _ {In Out : Type 0} where
  -- notifyProgress
  unfoldable pub notify_progress : State In Out → State In Out
  notify_progress s = record s {
    completed = s.completed + 1;
    progress = (s.completed + 1) ∷ s.progress;
  }

  -- The number of goroutines.
  abbrev pub running : State In Out → ℕ
  running s = total (λ slot. one_if (is_running slot.phase)) s.slots

  -- The phase of an item; one that is not there is idle.
  abbrev pub phase_of : Option (Slot In Out) → Phase
  phase_of none = idle
  phase_of (some slot) = slot.phase

  unfoldable pub launch_slot : Phase → Slot In Out → Option (Slot In Out)
  launch_slot idle slot = some (record slot { phase = launched })
  launch_slot launched slot = none
  launch_slot working slot = none
  launch_slot leaving slot = none
  launch_slot finished slot = none

  unfoldable pub cancel_slot : Phase → Slot In Out → Option (Slot In Out)
  cancel_slot idle slot =
      some (record slot { phase = finished; result = record { value = none; cancelled = true } })
  cancel_slot launched slot = none
  cancel_slot working slot = none
  cancel_slot leaving slot = none
  cancel_slot finished slot = none

-- The worker: what it returns may depend on whether the context is done by then.
module _ {In Out : Type 0} (worker : Bool → In → Out) where
  -- What a goroutine does to its slot, by its phase.
  unfoldable pub work_phase : Bool → Phase → Slot In Out → Option (Slot In Out)
  work_phase is_done idle slot = none
  work_phase true launched slot =
      some (record slot { phase = leaving; result = record { value = none; cancelled = true } })
  work_phase false launched slot = some (record slot { phase = working })
  work_phase is_done working slot = some (record slot {
    phase = leaving;
    result = record { value = some (worker is_done slot.item); cancelled = false };
  })
  work_phase is_done leaving slot = some (record slot { phase = finished })
  work_phase is_done finished slot = none

  unfoldable pub work_slot : Bool → Slot In Out → Option (Slot In Out)
  work_slot is_done slot = work_phase is_done slot.phase slot

  -- A step of the goroutine of an item; the last one notifies.
  unfoldable pub work_step : ℕ → State In Out → Option (State In Out)
  work_step i s = elim (modify i (work_slot s.is_done) s.slots) [
    | none ↦ none
    | some slots ↦
        let s' = record s { slots = slots } in
        some (if is_leaving (phase_of (get_elem? s.slots i)) then notify_progress s' else s')
  ]

module _ {In Out : Type 0} (limit : ℤ) (worker : Bool → In → Out) where
  -- A step of the launch loop: group.Go blocks until a slot is free, and Wait until all are.
  unfoldable pub main_step : Main → State In Out → Option (State In Out)
  main_step (checking idx) s = some (record s {
    main =
        if ltb idx (length s.slots)
        then if s.is_done then cancelling idx else acquiring idx
        else waiting;
  })
  main_step (acquiring idx) s =
      if ltb (running s) (effective_limit limit)
      then elim (modify idx (λ slot. launch_slot slot.phase slot) s.slots) [
        | none ↦ none
        | some slots ↦ some (record s { main = checking (suc idx); slots = slots })
      ]
      else none
  main_step (cancelling idx) s =
      if ltb idx (length s.slots)
      then elim (modify idx (λ slot. cancel_slot slot.phase slot) s.slots) [
        | none ↦ none
        | some slots ↦
            some (notify_progress (record s { main = cancelling (suc idx); slots = slots }))
      ]
      else some (record s { main = waiting })
  main_step waiting s = if running s =? 0 then some (record s { main = returned }) else none
  main_step returned s = none

  unfoldable pub step : Event → State In Out → Option (State In Out)
  step cancel s = if s.is_done then none else some (record s { is_done = true })
  step launch s = main_step s.main s
  step (work i) s = work_step worker i s

  -- The events of a run, in their order; `none` if one of them cannot happen.
  unfoldable pub run : List Event → State In Out → Option (State In Out)
  run [] s = some s
  run (event ∷ events) s = elim (step event s) [ none ↦ none | some s' ↦ run events s' ]
