-- ===== src/ParMap/Tests.antt =====
-- A run of Map over two items with one goroutine at a time.
use azldev.Prelude.{
  ℕ, ◌+◌, ◌≤◌, ◌*◌, List, [], ◌∷◌, Bool, false, some, none, ◌≡◌, refl, pos, map, ◌⊎◌, length,
}
use azldev.ParMap.{
  finished, working, idle, acquiring, Slot, returned, State, Event, launch, work, effective_limit,
  step, run, main_step, work_step, work_slot, work_phase, launch_slot, cancel_slot, modify, start,
  idle_slots, is_running, is_leaving, notify_progress, running,
}
use azldev.ParMap.Invariant.Steps.{count_down}
use azldev.ParMap.Laws.{run-limit, run-length, run-Results, Results}
use azldev.ParMap.Progress.{run-GoesOn, GoesOn, values-run, values}

abbrev double : Bool → ℕ → ℕ
double is_done n = n + n

abbrev two : List ℕ
two = 3 ∷ 5 ∷ []

abbrev schedule : List Event
schedule =
    launch
    ∷ launch
    ∷ work 0
    ∷ launch
    ∷ work 0
    ∷ work 0
    ∷ launch
    ∷ launch
    ∷ work 1
    ∷ work 1
    ∷ work 1
    ∷ launch
    ∷ []

abbrev doubled : ℕ → Slot ℕ ℕ
doubled n = record {
  item = n;
  phase = finished;
  result = record { value = some (n + n); cancelled = false };
}

abbrev last : State ℕ ℕ
last = record {
  main = returned;
  slots = doubled 3 ∷ doubled 5 ∷ [];
  is_done = false;
  completed = 2;
  progress = 2 ∷ 1 ∷ [];
}

schedule_runs : run (pos 1) double schedule (start two) ≡ some last
unfolding run step main_step work_step work_slot work_phase launch_slot cancel_slot modify start
    idle_slots is_running is_leaving notify_progress effective_limit
schedule_runs = refl

run-limit_example :
    (running last ≤ effective_limit (pos 1))
    × (last.progress ≡ count_down last.completed)
    × (2 ≤ length two)
run-limit_example = run-limit (pos 1) double two schedule last schedule_runs

run-length_example : length schedule ≤ 5 * length two + 4
run-length_example = run-length (pos 1) double two schedule last schedule_runs

run-Results_example :
    (map (λ slot. slot.item) last.slots ≡ two)
    × Results (pos 1) double two false last.slots
    × (last.progress ≡ count_down (length two))
run-Results_example = run-Results (pos 1) double two schedule last schedule_runs refl

-- The first goroutine holds the only slot, and the loop waits for it with the second item.
abbrev blocked : State ℕ ℕ
blocked = record {
  main = acquiring 1;
  slots =
      record { item = 3; phase = working; result = record { value = none; cancelled = false } }
      ∷ record { item = 5; phase = idle; result = record { value = none; cancelled = false } }
      ∷ [];
  is_done = false;
  completed = 0;
  progress = [];
}

blocked_runs :
    run (pos 1) double (launch ∷ launch ∷ work 0 ∷ launch ∷ []) (start two) ≡ some blocked
unfolding run step main_step work_step work_slot work_phase launch_slot modify start idle_slots
    is_running is_leaving notify_progress effective_limit
blocked_runs = refl

run-GoesOn_example : (blocked.main ≡ returned) ⊎ GoesOn (pos 1) double two blocked
run-GoesOn_example =
    run-GoesOn (pos 1) double two (launch ∷ launch ∷ work 0 ∷ launch ∷ []) blocked blocked_runs

values-run_example :
    values (pos 1) double two last.slots ≡ map (λ item. some (double false item)) two
values-run_example = values-run (pos 1) double two schedule last schedule_runs refl refl
