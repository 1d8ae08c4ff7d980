-- ===== src/Retry/Tests.antt =====
-- Runs of Do with an operation that fails a given number of times, over a world that counts.
use azldev.Prelude.{ℕ, ◌+◌, ◌<◌, ◌↔◌, Option, none, some, Error, new, ◌≡◌, refl, ltb, Bool, ◌=?◌}
use azldev.Prelude.{if◌then◌else◌, pos, negsuc}
use azldev.Retry.{Config, is_not_positive, normalize_config, do_loop, do_retry}
use azldev.Retry.Laws.{world_before, do_retry_iff}

-- Fails twice, then succeeds.
abbrev flaky : ℕ → Option Error × ℕ
flaky n = (if ltb n 2 then some (new "flaky") else none, n + 1)

abbrev is_zero : ℕ → Bool
is_zero n = n =? 0

abbrev wait : Config ℕ → ℕ → ℕ → Option Error × ℕ
wait cfg attempt n = (none, n)

abbrev twice : Config ℕ
twice = record {
  max_attempts = pos 2;
  initial_delay = pos 1;
  max_delay = pos 1;
  backoff_multiplier = 2;
}

-- A configuration with no attempts is given the default of three.
abbrev unset : Config ℕ
unset = record {
  max_attempts = negsuc 0;
  initial_delay = pos 0;
  max_delay = pos 0;
  backoff_multiplier = 0;
}

twice_gives_up : (do_retry flaky ℕ is_zero 2 wait twice 0).1 ≡ 2
unfolding do_retry do_loop normalize_config is_not_positive
twice_gives_up = refl

unset_retries : do_retry flaky ℕ is_zero 2 wait unset 0 ≡ (none, 3)
unfolding do_retry do_loop normalize_config is_not_positive
unset_retries = refl

abbrev thrice : Config ℕ
thrice = record twice { max_attempts = pos 3 }

do_retry_iff_example :
    ((do_retry flaky ℕ is_zero 2 wait thrice 0).0 ≡ none)
    ↔ ((k : ℕ) × (k < 3) × ((flaky (world_before flaky (wait thrice) 1 k 0)).0 ≡ none))
unfolding normalize_config is_not_positive
do_retry_iff_example = do_retry_iff flaky ℕ is_zero 2 wait thrice 0 2 refl (λ c attempt n. refl)
