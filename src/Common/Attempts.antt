-- ===== src/Common/Attempts.antt =====
-- What the loop of common/retry/backoff.go does.
use msa_saga_go_practical.Prelude.{
  ℕ, zero, suc, ◌≤◌, ◌<◌, ◌≡◌, refl, ◌⊎◌, Option, none, some, [], ◌∷◌, arith, length, inl, inr,
}
use msa_saga_go_practical.Prelude.Int.{pos_part}
use msa_saga_go_practical.Common.Errors.{Error}
use msa_saga_go_practical.Common.Result.{Result, ok, err, Result-cases}
use msa_saga_go_practical.Common.Retry.{
  Config, Clock, attempts_reached, next_interval, attempt_from, do_with_result,
}
use msa_saga_go_practical.Store.Table.{All}

-- The specification: the first success of at most so many calls, or the last error.
unfoldable pub first_of : {S A : Type 0} → (S → Result A × S) → ℕ → Option Error → S → Result A × S
first_of fn zero last s = (err (attempts_reached last), s)
first_of fn (suc n) last s =
    let (r, s') = fn s in elim r [ ok a ↦ (ok a, s') | err e ↦ first_of fn n (some e) s' ]

module _ (config : Config) (clock : Clock) {S A : Type 0} (fn : S → Result A × S) where
  abbrev Undisturbed : Type 0
  Undisturbed =
      (n : ℕ)
      → (clock.cancelled n ≡ none)
        × (clock.cut_short n ≡ none)
        × (clock.elapsed n ≤ config.max_elapsed_time)

  attempt_from-first_of :
      (left attempt interval : ℕ) (last : Option Error) (s : S)
      → Undisturbed
      → let (r, waits, s') = attempt_from config clock fn left attempt interval last s in
        (r, s') ≡ first_of fn left last s
  unfolding attempt_from first_of
  attempt_from-first_of zero attempt interval last s calm = refl
  attempt_from-first_of (suc zero) attempt interval last s calm =
      let (running, waits, early) = calm attempt in ground (arith, running, early)
  attempt_from-first_of (suc (suc left)) attempt interval last s calm =
      let (running, waits, early) = calm attempt in
      elim (Result-cases (fn s).0) [
        | inl (a, good) ↦ ground (arith, running, waits, early, good)
        | inr (e, bad) ↦
            let rest =
              attempt_from-first_of (suc left) (suc attempt)
                (next_interval config clock fn interval) (some e) (fn s).1 calm in
            ground (arith, running, waits, early, bad, rest)
      ]

  -- The longest that the loop ever waits at a time.
  abbrev pub IsShort : ℕ → Type 0
  IsShort w = (w ≤ config.initial_interval) ⊎ (w ≤ config.max_interval)

  next-IsShort : (interval : ℕ) → IsShort (next_interval config clock fn interval)
  next-IsShort interval = ground arith

  waits_step :
      (left attempt interval : ℕ) (last : Option Error) (s : S) (e : Error)
      → (fn s).0 ≡ err e
      → let (_, waits, _) = attempt_from config clock fn (suc (suc left)) attempt interval last s in
        let (_, rest, _) =
          attempt_from config clock fn
            (suc left)
            (suc attempt)
            (next_interval config clock fn interval)
            (some e)
            (fn s).1 in
        (waits ≡ []) ⊎ (waits ≡ interval ∷ rest)
  unfolding attempt_from
  waits_step left attempt interval last s e bad = ground (arith, bad)

  waits_bounded :
      (left attempt interval : ℕ) (last : Option Error) (s : S)
      → IsShort interval
      → let (_, waits, _) = attempt_from config clock fn (suc left) attempt interval last s in
        All IsShort waits × (length waits ≤ left)
  unfolding attempt_from
  waits_bounded zero attempt interval last s short = ground arith
  waits_bounded (suc left) attempt interval last s short = elim (Result-cases (fn s).0) [
    | inl (a, good) ↦ ground (arith, good)
    | inr (e, bad) ↦
        let rest =
          waits_bounded left (suc attempt) (next_interval config clock fn interval) (some e)
            (fn s).1 (next-IsShort interval) in
        elim (waits_step left attempt interval last s e bad) [
          | inl none_yet ↦ rw none_yet (tt, omega arith)
          | inr one ↦ rw one ((short, rest.0), omega (arith, rest.1))
        ]
  ]

  -- When the context is never cancelled and the time does not run out, `DoWithResult` is "the first
  -- success of at most `MaxAttempts` calls": it returns it, or the last error wrapped as "max attempts
  -- reached", and leaves the state that those calls leave.
  pub do_with_result-first_of :
      (s : S)
      → ((n : ℕ)
          → (clock.cancelled n ≡ none)
            × (clock.cut_short n ≡ none)
            × (clock.elapsed n ≤ config.max_elapsed_time))
      → let (r, waits, s') = do_with_result config clock fn s in
        (r, s') ≡ first_of fn (pos_part config.max_attempts) none s
  unfolding do_with_result
  do_with_result-first_of s calm =
      attempt_from-first_of (pos_part config.max_attempts) 1 config.initial_interval none s calm

  -- Whatever the context and the clock do, `DoWithResult` waits at most `MaxAttempts` times, and one
  -- time fewer if `MaxAttempts` is positive, never longer than the initial interval or the maximal
  -- one.
  pub do_with_result_waits :
      (s : S)
      → let (_, waits, _) = do_with_result config clock fn s in
        All IsShort waits
        × (length waits ≤ pos_part config.max_attempts)
        × ((pos_part config.max_attempts ≡ 0) ⊎ (length waits < pos_part config.max_attempts))
  unfolding do_with_result
  do_with_result_waits s = go (pos_part config.max_attempts)
    where
      go :
          (n : ℕ)
          → let (_, waits, _) = attempt_from config clock fn n 1 config.initial_interval none s in
            All IsShort waits × (length waits ≤ n) × ((n ≡ 0) ⊎ (length waits < n))
      go zero = (tt, omega arith, inl refl)
      go (suc n) =
          let (short, few) = waits_bounded n 1 config.initial_interval none s (inl (omega arith)) in
          (short, omega (arith, few), inr (omega (arith, few)))
