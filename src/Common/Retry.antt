-- ===== src/Common/Retry.antt =====
-- common/retry/backoff.go: `Do` and `DoWithResult`, which differ in the value that they return. What
-- the loop sees of the context and of the clock is an argument, by the number of the attempt.
use msa_saga_go_practical.Prelude.{
  ℕ, zero, suc, ◌*◌, Option, none, some, List, [], ◌∷◌, ltb, if◌then◌else◌,
}
use msa_saga_go_practical.Prelude.Int.{ℤ, pos, pos_part}
use msa_saga_go_practical.Prelude.Text.{Text, text}
use msa_saga_go_practical.Common.Errors.{Error}
use msa_saga_go_practical.Common.Result.{Result, ok, err}

-- `Config`. The product of an interval and `BackoffCoefficient`, in floating point, is a function.
pub record Config : Type 0 where
  pub max_attempts : ℤ
  pub initial_interval : ℕ
  pub max_interval : ℕ
  pub scale : ℕ → ℕ
  pub max_elapsed_time : ℕ

-- `DefaultConfig`. The product by 2.0 is exact below 2^53.
unfoldable pub default_config : Config
default_config = record {
  max_attempts = pos 5;
  initial_interval = 1000000000;
  max_interval = 60000000000;
  scale = λ interval. interval * 2;
  max_elapsed_time = 300000000000;
}

-- `ctx.Err()` and `time.Since(startTime)` before each attempt, and `ctx.Err()` after a wait that the
-- context has cut short.
pub record Clock : Type 0 where
  pub cancelled : ℕ → Option Error
  pub elapsed : ℕ → ℕ
  pub cut_short : ℕ → Option Error

-- `fmt.Errorf("…: %w", lastErr)`
abbrev pub wrapped : Text → Option Error → Error
wrapped m none = Error.errorf m
wrapped m (some e) = Error.errorf_w m e

abbrev pub attempts_reached : Option Error → Error
attempts_reached last = wrapped (text "max attempts reached") last

module _ (config : Config) (clock : Clock) {S A : Type 0} (fn : S → Result A × S) where
  -- The result, the intervals that it has waited for, and the state that `fn` leaves.
  abbrev pub Outcome : Type 0
  Outcome = Result A × List ℕ × S

  abbrev pub next_interval : ℕ → ℕ
  next_interval interval =
      if ltb config.max_interval (config.scale interval)
      then config.max_interval
      else config.scale interval

  -- The wait between two attempts, and the attempts after it.
  abbrev pub wait : ℕ → Option Error → S → Outcome → Outcome
  wait interval (some e) s rest = (err e, [], s)
  wait interval none s (r, waits, s') = (r, interval ∷ waits, s')

  -- The loop, with the number of attempts that are left.
  unfoldable pub attempt_from : ℕ → ℕ → ℕ → Option Error → S → Outcome
  attempt_from zero attempt interval last s = (err (attempts_reached last), [], s)
  attempt_from (suc left) attempt interval last s = elim (clock.cancelled attempt) [
    | some e ↦ (err e, [], s)
    | none ↦
        if ltb config.max_elapsed_time (clock.elapsed attempt)
        then (err (wrapped (text "max elapsed time exceeded") last), [], s)
        else let (r, s') = fn s in
          elim r [
            | ok a ↦ (ok a, [], s')
            | err e ↦ elim left [
              | zero ↦ (err (attempts_reached (some e)), [], s')
              | suc _ ↦
                  wait interval (clock.cut_short attempt) s'
                    (attempt_from left (suc attempt) (next_interval interval) (some e) s')
            ]
          ]
  ]

  unfoldable pub do_with_result : S → Outcome
  unfolding attempt_from
  do_with_result s = attempt_from (pos_part config.max_attempts) 1 config.initial_interval none s
