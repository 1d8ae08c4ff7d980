-- ===== src/ParMap/Invariant.antt =====
-- internal/utils/parmap/parmap.go: what holds of the results and the counters at every step of Map.
pub mod Steps
pub mod Launch
use azldev.Prelude.{
  ℕ, zero, suc, ◌+◌, ◌≤◌, ◌<◌, List, [], ◌∷◌, Bool, true, false, Option, some, none, ◌≡◌, refl,
  arith, ℤ, inl, inr, ◌⊎◌, sym,
}
use azldev.Prelude.{length, ap, ◌∙◌, subst}
use azldev.ParMap.{
  MapResult, Phase, idle, launched, working, leaving, finished, Slot, is_running, is_leaving,
  one_if, work_phase, work_slot, launch_slot, cancel_slot, modify, total,
}
use azldev.ParMap.Slots.{All, Changed}

unfoldable pub is_finished : Phase → Bool
is_finished finished = true
is_finished idle = false
is_finished launched = false
is_finished working = false
is_finished leaving = false

unfoldable pub is_idle : Phase → Bool
is_idle idle = true
is_idle launched = false
is_idle working = false
is_idle leaving = false
is_idle finished = false

-- The steps that an item has left, with the ones of the launch loop for it.
unfoldable pub rank : Phase → ℕ
rank idle = 5
rank launched = 3
rank working = 2
rank leaving = 1
rank finished = 0

module _ {In Out : Type 0} (worker : Bool → In → Out) where
  -- No result yet.
  abbrev Blank : MapResult Out → Type 0
  Blank result = (result.value ≡ none) × (result.cancelled ≡ false)

  -- The result of an item that was cancelled, or of its worker.
  abbrev pub Outcome : Bool → In → MapResult Out → Type 0
  Outcome is_done item result =
      ((result.cancelled ≡ true) × (result.value ≡ none) × (is_done ≡ true))
      ⊎ ((b : Bool) × (result.cancelled ≡ false)
          × (result.value ≡ some (worker b item))
          × (is_done ≡ false → b ≡ false))

  abbrev pub GoodAt : Phase → Bool → In → MapResult Out → Type 0
  GoodAt idle is_done item result = Blank result
  GoodAt launched is_done item result = Blank result
  GoodAt working is_done item result = Blank result
  GoodAt leaving is_done item result = Outcome is_done item result
  GoodAt finished is_done item result = Outcome is_done item result

  abbrev pub Good : Bool → Slot In Out → Type 0
  Good is_done slot = GoodAt slot.phase is_done slot.item slot.result

  Outcome-cancelled :
      (item : In) (result : MapResult Out) → Outcome false item result → Outcome true item result
  Outcome-cancelled item result (inl (a, b, c)) = inl (a, b, refl)
  Outcome-cancelled item result (inr (b, e, e', same)) = inr (b, e, e', λ undone. ground arith)

  GoodAt-cancelled :
      (phase : Phase) (item : In) (result : MapResult Out)
      → GoodAt phase false item result
      → GoodAt phase true item result
  GoodAt-cancelled idle item result good = good
  GoodAt-cancelled launched item result good = good
  GoodAt-cancelled working item result good = good
  GoodAt-cancelled leaving item result good = Outcome-cancelled item result good
  GoodAt-cancelled finished item result good = Outcome-cancelled item result good

  pub Good-cancelled : (slots : List (Slot In Out)) → All (Good false) slots → All (Good true) slots
  Good-cancelled [] all = tt
  Good-cancelled (slot ∷ slots) (good, all) =
      (GoodAt-cancelled slot.phase slot.item slot.result good, Good-cancelled slots all)

  -- A step of a goroutine on its slot.
  pub record Worked (is_done : Bool) (old new : Slot In Out) : Type 0 where
    pub was_running : is_running old.phase ≡ true
    pub was_idle : is_idle old.phase ≡ false
    pub is_idle_after : is_idle new.phase ≡ false
    pub runs : one_if (is_running new.phase) + one_if (is_leaving old.phase) ≡ 1
    pub finishes : one_if (is_finished new.phase) ≡ one_if (is_leaving old.phase)
    pub was_finished : is_finished old.phase ≡ false
    pub item : new.item ≡ old.item
    pub good : Good is_done old → Good is_done new
    pub less : rank new.phase < rank old.phase

  abbrev slot_of : In → Phase → MapResult Out → Slot In Out
  slot_of item phase result = record { item = item; phase = phase; result = result }

  phase-Worked :
      (is_done : Bool) (item : In) (phase : Phase) (result : MapResult Out) (new : Slot In Out)
      → work_phase worker is_done phase (slot_of item phase result) ≡ some new
      → Worked is_done (slot_of item phase result) new
  unfolding work_phase is_running is_idle is_leaving is_finished rank
  phase-Worked is_done item idle result new h = ground arith
  phase-Worked true item launched result new h =
      let same : slot_of item leaving (record { value = none; cancelled = true }) ≡ new =
        ground arith in
      subst (Worked true (slot_of item launched result)) same (record {
        was_running = refl;
        was_idle = refl;
        is_idle_after = refl;
        runs = refl;
        finishes = refl;
        was_finished = refl;
        item = refl;
        good = λ blank. inl (refl, refl, refl);
        less = omega arith;
      })
  phase-Worked false item launched result new h =
      let same : slot_of item working result ≡ new = ground arith in
      subst (Worked false (slot_of item launched result)) same (record {
        was_running = refl;
        was_idle = refl;
        is_idle_after = refl;
        runs = refl;
        finishes = refl;
        was_finished = refl;
        item = refl;
        good = λ blank. blank;
        less = omega arith;
      })
  phase-Worked is_done item working result new h =
      let after =
        slot_of item leaving (record { value = some (worker is_done item); cancelled = false }) in
      let same : after ≡ new = ground arith in
      subst (Worked is_done (slot_of item working result)) same (record {
        was_running = refl;
        was_idle = refl;
        is_idle_after = refl;
        runs = refl;
        finishes = refl;
        was_finished = refl;
        item = refl;
        good = λ blank. inr (is_done, refl, refl, λ not_done. not_done);
        less = omega arith;
      })
  phase-Worked is_done item leaving result new h =
      let same : slot_of item finished result ≡ new = ground arith in
      subst (Worked is_done (slot_of item leaving result)) same (record {
        was_running = refl;
        was_idle = refl;
        is_idle_after = refl;
        runs = refl;
        finishes = refl;
        was_finished = refl;
        item = refl;
        good = λ outcome. outcome;
        less = omega arith;
      })
  phase-Worked is_done item finished result new h = ground arith

  pub work_slot-Worked :
      (is_done : Bool) (old new : Slot In Out)
      → work_slot worker is_done old ≡ some new
      → Worked is_done old new
  unfolding work_slot
  work_slot-Worked is_done old new h = phase-Worked is_done old.item old.phase old.result new h

  -- A step of the launch loop on an idle slot: what it adds to the goroutines and to the finished
  -- items, and what it takes from the rank.
  pub record Moved (is_done : Bool) (old new : Slot In Out) (runs finishes drop : ℕ) : Type 0 where
    pub is_idle_after : is_idle new.phase ≡ false
    pub running_after : one_if (is_running new.phase) ≡ one_if (is_running old.phase) + runs
    pub finished_after : one_if (is_finished new.phase) ≡ one_if (is_finished old.phase) + finishes
    pub item : new.item ≡ old.item
    pub good : Good is_done old → Good is_done new
    pub less : rank new.phase + drop ≡ rank old.phase

  launched-Moved :
      (is_done : Bool) (item : In) (phase : Phase) (result : MapResult Out) (new : Slot In Out)
      → launch_slot phase (slot_of item phase result) ≡ some new
      → Moved is_done (slot_of item phase result) new 1 0 2
  unfolding launch_slot is_running is_idle is_finished rank
  launched-Moved is_done item idle result new h =
      let same : slot_of item launched result ≡ new = ground arith in
      subst (λ slot. Moved is_done (slot_of item idle result) slot 1 0 2) same
        (record {
          is_idle_after = refl;
          running_after = refl;
          finished_after = refl;
          item = refl;
          good = λ blank. blank;
          less = refl;
        })
  launched-Moved is_done item launched result new h = ground arith
  launched-Moved is_done item working result new h = ground arith
  launched-Moved is_done item leaving result new h = ground arith
  launched-Moved is_done item finished result new h = ground arith

  cancelled-Moved :
      (item : In) (phase : Phase) (result : MapResult Out) (new : Slot In Out)
      → cancel_slot phase (slot_of item phase result) ≡ some new
      → Moved true (slot_of item phase result) new 0 1 5
  unfolding cancel_slot is_running is_idle is_finished rank
  cancelled-Moved item idle result new h =
      let same : slot_of item finished (record { value = none; cancelled = true }) ≡ new =
        ground arith in
      subst (λ slot. Moved true (slot_of item idle result) slot 0 1 5) same
        (record {
          is_idle_after = refl;
          running_after = refl;
          finished_after = refl;
          item = refl;
          good = λ blank. inl (refl, refl, refl);
          less = refl;
        })
  cancelled-Moved item launched result new h = ground arith
  cancelled-Moved item working result new h = ground arith
  cancelled-Moved item leaving result new h = ground arith
  cancelled-Moved item finished result new h = ground arith

  pub launch_slot-Moved :
      (is_done : Bool) (old new : Slot In Out)
      → launch_slot old.phase old ≡ some new
      → Moved is_done old new 1 0 2
  launch_slot-Moved is_done old new h = launched-Moved is_done old.item old.phase old.result new h

  pub cancel_slot-Moved :
      (old new : Slot In Out) → cancel_slot old.phase old ≡ some new → Moved true old new 0 1 5
  cancel_slot-Moved old new h = cancelled-Moved old.item old.phase old.result new h
