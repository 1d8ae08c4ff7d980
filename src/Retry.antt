-- ===== src/Retry.antt =====
-- internal/utils/retry/retry.go: the attempt loop of Do, and the defaults of its configuration.
-- The operation and the wait between attempts act on a state of the world and are parameters; the
-- delay, which is floating-point arithmetic with a random jitter, is part of the wait.
pub mod Laws
mod Tests
use azldev.Prelude.{
  ℕ, suc, zero, ◌+◌, ◌*◌, ◌^◌, Bool, true, false, Option, none, some, Error, new, wrap,
}
use azldev.Prelude.{ℤ, pos, negsuc, is_pos, if◌then◌else◌, ◌=?◌, ltb}

-- DefaultMaxAttempts, DefaultInitialDelay and DefaultMaxDelay (nanoseconds)
abbrev pub default_max_attempts : ℕ
default_max_attempts = 3

abbrev pub default_initial_delay : ℕ
default_initial_delay = 2 * 10 ^ 9

abbrev pub default_max_delay : ℕ
default_max_delay = 30 * 10 ^ 9

-- Config, over the type of floating-point numbers
pub record Config (Float : Type 0) : Type 0 where
  pub max_attempts : ℤ
  pub initial_delay : ℤ
  pub max_delay : ℤ
  pub backoff_multiplier : Float

-- cfg.MaxAttempts <= 0
unfoldable pub is_not_positive : ℤ → Bool
is_not_positive (pos n) = n =? 0
is_not_positive (negsuc n) = true

module _ (Float : Type 0) (is_zero : Float → Bool) (default_backoff_multiplier : Float) where
  -- normalizeConfig
  unfoldable pub normalize_config : Config Float → Config Float
  unfolding is_not_positive
  normalize_config cfg = record {
    max_attempts =
        if is_not_positive cfg.max_attempts then pos default_max_attempts else cfg.max_attempts;
    initial_delay =
        if is_pos cfg.initial_delay 0 then pos default_initial_delay else cfg.initial_delay;
    max_delay = if is_pos cfg.max_delay 0 then pos default_max_delay else cfg.max_delay;
    backoff_multiplier =
        if is_zero cfg.backoff_multiplier
        then default_backoff_multiplier
        else cfg.backoff_multiplier;
  }

-- the number of rounds of the loop `for attempt := 1; attempt <= max; attempt++`
abbrev pub rounds_of : ℤ → ℕ
rounds_of (pos n) = n
rounds_of (negsuc n) = 0

abbrev or_unknown : Option Error → Error
or_unknown none = new "%!w(<nil>)"
or_unknown (some e) = e

module _ {World : Type 0} (operation : World → Option Error × World) where
  -- The loop of Do, over the rounds that are left, with lastErr. The wait is told the attempt.
  unfoldable pub do_loop :
      (ℕ → World → Option Error × World) → ℕ → ℕ → Option Error → World → Option Error × World
  do_loop sleep zero attempt last_err w =
      (some (wrap "operation failed after %d attempt(s):\n%w" (or_unknown last_err)), w)
  do_loop sleep (suc rounds) attempt last_err w =
      let (result, w') = operation w in
      elim result [
        | none ↦ (none, w')
        | some e ↦ elim (rounds =? 0) [
          | true ↦ (some (wrap "operation failed after %d attempt(s):\n%w" e), w')
          | false ↦
              let (waited, w'') = sleep attempt w' in
              elim waited [
                | some cancelled ↦ (some (wrap "retry cancelled while waiting:\n%w" cancelled), w'')
                | none ↦ do_loop sleep rounds (attempt + 1) (some e) w''
              ]
        ]
      ]

  -- Do
  module _ (Float : Type 0) (is_zero : Float → Bool) (default_backoff_multiplier : Float) where
    unfoldable pub do_retry :
        (Config Float → ℕ → World → Option Error × World)
        → Config Float
        → World
        → Option Error × World
    do_retry sleep cfg w =
        let cfg' = normalize_config Float is_zero default_backoff_multiplier cfg in
        do_loop (sleep cfg') (rounds_of cfg'.max_attempts) 1 none w
