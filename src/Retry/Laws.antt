-- ===== src/Retry/Laws.antt =====
-- internal/utils/retry/retry.go: how often Do calls its operation, and what it returns.
use azldev.Prelude.{ℕ, suc, zero, ◌+◌, ◌≤◌, ◌<◌, Bool, Option, none, some, Error, ◌≡◌, ◌↔◌}
use azldev.Prelude.{
  subst, ap, ◌∙◌, arith, ◌=?◌, inl, inr, Bool-cases, Option-cases, ℤ, pos, negsuc, if◌then◌else◌,
}
use azldev.Retry.{
  Config, default_max_attempts, is_not_positive, normalize_config, rounds_of, do_loop, do_retry,
}

at_least_one : (n : ℤ) → 1 ≤ rounds_of (if is_not_positive n then pos default_max_attempts else n)
unfolding is_not_positive
at_least_one (pos n) = ground arith
at_least_one (negsuc n) = omega arith

-- The number of attempts that are made at most, whatever the configuration says.
max_attempts-normalize_config :
    (Float : Type 0) (is_zero : Float → Bool) (multiplier : Float) (cfg : Config Float)
    → 1 ≤ rounds_of (normalize_config Float is_zero multiplier cfg).max_attempts
unfolding normalize_config is_not_positive
max_attempts-normalize_config Float is_zero multiplier cfg = at_least_one cfg.max_attempts

module _ {World : Type 0} (operation : World → Option Error × World) where
  -- The operation, with a count of its calls.
  abbrev pub counted : World × ℕ → Option Error × (World × ℕ)
  counted (w, calls) = ((operation w).0, ((operation w).1, calls + 1))

  abbrev pub beside :
      (ℕ → World → Option Error × World) → ℕ → World × ℕ → Option Error × (World × ℕ)
  beside sleep attempt (w, calls) = ((sleep attempt w).0, ((sleep attempt w).1, calls))

  do_loop_calls :
      (sleep : ℕ → World → Option Error × World) (rounds attempt : ℕ) (last_err : Option Error)
      (w : World) (calls : ℕ)
      → (do_loop counted (beside sleep) rounds attempt last_err (w, calls)).1.1 ≤ calls + rounds
  unfolding do_loop
  do_loop_calls sleep zero attempt last_err w calls = omega arith
  do_loop_calls sleep (suc rounds) attempt last_err w calls = ground (
    arith,
    do_loop_calls sleep rounds (attempt + 1) (operation w).0 (sleep attempt (operation w).1).1
        (calls + 1),
  )

  -- The world before the attempt after k failed ones and the waits behind them.
  unfoldable pub world_before : (ℕ → World → Option Error × World) → ℕ → ℕ → World → World
  world_before sleep attempt zero w = w
  world_before sleep attempt (suc k) w =
      world_before sleep (attempt + 1) k (sleep attempt (operation w).1).1

  do_loop_success :
      (sleep : ℕ → World → Option Error × World)
      → ((attempt : ℕ) (w : World) → (sleep attempt w).0 ≡ none)
      → (rounds attempt : ℕ) (last_err : Option Error) (w : World)
      → (do_loop operation sleep rounds attempt last_err w).0 ≡ none
      → (k : ℕ) × (k < rounds) × ((operation (world_before sleep attempt k w)).0 ≡ none)
  unfolding do_loop world_before
  do_loop_success sleep calm zero attempt last_err w h = ground arith
  do_loop_success sleep calm (suc rounds) attempt last_err w h =
      elim (Option-cases (operation w).0) [
        | inl e ↦ (0, omega arith, e)
        | inr (failure, e) ↦ elim (Bool-cases (rounds =? 0)) [
          | inl last ↦ ground arith
          | inr more ↦
              let (k, below, succeeds) =
                do_loop_success sleep calm rounds (attempt + 1) (some failure)
                  (sleep attempt (operation w).1).1
                  (ground (arith, calm attempt (operation w).1)) in
              (suc k, omega arith, succeeds)
        ]
      ]

  do_loop_succeeds :
      (sleep : ℕ → World → Option Error × World)
      → ((attempt : ℕ) (w : World) → (sleep attempt w).0 ≡ none)
      → (rounds attempt : ℕ) (last_err : Option Error) (w : World) (k : ℕ) → k < rounds
      → (operation (world_before sleep attempt k w)).0 ≡ none
      → (do_loop operation sleep rounds attempt last_err w).0 ≡ none
  unfolding do_loop world_before
  do_loop_succeeds sleep calm zero attempt last_err w k below h = ground arith
  do_loop_succeeds sleep calm (suc rounds) attempt last_err w zero below h = ground arith
  do_loop_succeeds sleep calm (suc rounds) attempt last_err w (suc k) below h =
      elim (Option-cases (operation w).0) [
        | inl e ↦ ground arith
        | inr (failure, e) ↦ ground (
          arith,
          calm attempt (operation w).1,
          do_loop_succeeds sleep calm rounds (attempt + 1) (some failure)
              (sleep attempt (operation w).1).1 k (omega arith) h,
        )
      ]

  module _ (Float : Type 0) (is_zero : Float → Bool) (multiplier : Float) where
    -- Do calls its operation no more often than the normalised configuration allows, whatever the
    -- operation and the waits return.
    do_retry_calls :
        (sleep : Config Float → ℕ → World → Option Error × World) (cfg : Config Float) (w : World)
        → (do_retry counted Float is_zero multiplier (λ c. beside (sleep c)) cfg (w, 0)).1.1
          ≤ rounds_of (normalize_config Float is_zero multiplier cfg).max_attempts
    unfolding do_retry
    do_retry_calls sleep cfg w =
        let cfg' = normalize_config Float is_zero multiplier cfg in
        ground (arith, do_loop_calls (sleep cfg') (rounds_of cfg'.max_attempts) 1 none w 0)

    -- The attempts are those of the configuration with its defaults.
    do_retry-normalized_iff :
        (sleep : Config Float → ℕ → World → Option Error × World) (cfg : Config Float) (w : World)
        → ((c : Config Float) (attempt : ℕ) (w : World) → (sleep c attempt w).0 ≡ none)
        → (((do_retry operation Float is_zero multiplier sleep cfg w).0 ≡ none) ↔ (
            (k : ℕ) × (k < rounds_of (normalize_config Float is_zero multiplier cfg).max_attempts)
            × ((operation
                  (world_before (sleep (normalize_config Float is_zero multiplier cfg)) 1 k w)).0
                ≡ none)))
          × (1 ≤ rounds_of (normalize_config Float is_zero multiplier cfg).max_attempts)
    unfolding do_retry
    do_retry-normalized_iff sleep cfg w calm =
        let cfg' = normalize_config Float is_zero multiplier cfg in
        let rounds = rounds_of cfg'.max_attempts in
        (
          (
            do_loop_success (sleep cfg') (calm cfg') rounds 1 none w,
            λ (k, below, h). do_loop_succeeds (sleep cfg') (calm cfg') rounds 1 none w k below h,
          ),
          max_attempts-normalize_config Float is_zero multiplier cfg,
        )

    rounds-normalized :
        (cfg : Config Float) (n : ℕ)
        → cfg.max_attempts ≡ pos (suc n)
        → rounds_of (normalize_config Float is_zero multiplier cfg).max_attempts ≡ suc n
    unfolding normalize_config is_not_positive
    rounds-normalized cfg n given =
        ap (λ m. rounds_of (if is_not_positive m then pos default_max_attempts else m)) given
        ∙ ground arith

    -- For a positive number of attempts, and if no wait is cancelled, Do succeeds exactly when one of
    -- that many attempts would, each made in the world that the failed attempts and the waits before it
    -- leave.
    pub do_retry_iff :
        (sleep : Config Float → ℕ → World → Option Error × World) (cfg : Config Float) (w : World)
        (n : ℕ)
        → cfg.max_attempts ≡ pos (suc n)
        → ((c : Config Float) (attempt : ℕ) (w : World) → (sleep c attempt w).0 ≡ none)
        → ((do_retry operation Float is_zero multiplier sleep cfg w).0 ≡ none) ↔ (
            (k : ℕ) × (k < suc n)
            × ((operation
                  (world_before (sleep (normalize_config Float is_zero multiplier cfg)) 1 k w)).0
                ≡ none))
    do_retry_iff sleep cfg w n given calm =
        let (same, some_round) = do_retry-normalized_iff sleep cfg w calm in
        subst
          (λ rounds. ((do_retry operation Float is_zero multiplier sleep cfg w).0 ≡ none) ↔ (
            (k : ℕ) × (k < rounds)
            × ((operation
                  (world_before (sleep (normalize_config Float is_zero multiplier cfg)) 1 k w)).0
                ≡ none)))
          (rounds-normalized cfg n given) same
