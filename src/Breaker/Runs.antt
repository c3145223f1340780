-- ===== src/Breaker/Runs.antt =====
-- Runs of the breaker: calls start, succeed and fail in any order, so any number is in flight.
use xelma_backend.Base.{
  ℕ, ◌≡◌, ◌≢◌, ◌⊎◌, ◌≤◌, ◌<◌, refl, Option, none, some, List, [], ◌∷◌, ok, arith, Option-cases, inl,
  inr,
}
use xelma_backend.Breaker.Machine.{
  BreakerState, Options, Breaker, new_breaker, reset, admit_probe, before_call, trip, on_success,
  on_failure,
}

-- What can happen to a breaker, with the time of the clock.
pub data Happening : Type 0 where
  starts : (now : ℕ) → Happening
  succeeds : Happening
  fails : (now : ℕ) → Happening
  is_reset : Happening

module _ (options : Options) where
  unfoldable pub happen : Happening → Breaker → Breaker
  happen (starts now) b = (before_call options now b).1
  happen succeeds b = on_success options b
  happen (fails now) b = on_failure options now b
  happen is_reset b = reset b

  unfoldable pub run_breaker : List Happening → Breaker → Breaker
  run_breaker [] b = b
  run_breaker (h ∷ hs) b = run_breaker hs (happen h b)

  -- An open breaker knows when to try again, a closed one has counted too few failures to open, and
  -- there is room for a probe unless probes are in flight.
  abbrev pub KnowsWhen : BreakerState → Option ℕ → Type 0
  KnowsWhen BreakerState.opened none = ⊥
  KnowsWhen _ _ = Unit

  abbrev pub HasRoom : BreakerState → (in_flight failures : ℕ) → Type 0
  HasRoom BreakerState.closed n failures =
      (n < options.half_open_max_calls) × (failures < options.failure_threshold)
  HasRoom BreakerState.opened n failures = n < options.half_open_max_calls
  HasRoom BreakerState.half_open n failures = n ≤ options.half_open_max_calls

  unfoldable pub IsWell : Breaker → Type 0
  IsWell b =
      KnowsWhen b.state b.next_attempt_at × HasRoom b.state b.half_open_in_flight b.failure_count

  module _ (some_probe : 0 < options.half_open_max_calls)
      (some_failure : 0 < options.failure_threshold) where
    happen-IsWell : (h : Happening) (b : Breaker) → IsWell b → IsWell (happen h b)
    unfolding happen IsWell before_call admit_probe on_success on_failure trip reset
    happen-IsWell (starts now) b w = by_parts b.state b.next_attempt_at refl refl
      where
        by_parts :
            (s : BreakerState) (t : Option ℕ)
            → b.state ≡ s
            → b.next_attempt_at ≡ t
            → IsWell (happen (starts now) b)
        by_parts s none es et = ground arith
        by_parts s (some t) es et = ground arith
    happen-IsWell succeeds b w = ground arith
    happen-IsWell (fails now) b w = ground arith
    happen-IsWell is_reset b w = (tt, (some_probe, some_failure))

    run_breaker-IsWell : (hs : List Happening) (b : Breaker) → IsWell b → IsWell (run_breaker hs b)
    unfolding run_breaker
    run_breaker-IsWell [] b w = w
    run_breaker-IsWell (h ∷ hs) b w = run_breaker-IsWell hs (happen h b) (happen-IsWell h b w)

    -- In every run of a new breaker there are never more probes in flight than allowed, and a closed
    -- breaker has counted fewer failures than the threshold, if both bounds are positive.
    pub probes_bounded :
        (hs : List Happening)
        → ((run_breaker hs new_breaker).half_open_in_flight ≤ options.half_open_max_calls)
          × (((run_breaker hs new_breaker).state ≢ BreakerState.closed)
              ⊎ ((run_breaker hs new_breaker).failure_count < options.failure_threshold))
    unfolding IsWell
    probes_bounded hs =
        let well = run_breaker-IsWell hs new_breaker (tt, (some_probe, some_failure)) in
        (ground arith, ground arith)

    -- If both bounds are positive, the breaker never locks itself out: whenever a run of a new
    -- breaker has left it open it holds a time, and a call at that time or later is let through.
    pub never_locked_out :
        (hs : List Happening) (now : ℕ)
        → (run_breaker hs new_breaker).state ≡ BreakerState.opened
        → (t : ℕ) × ((run_breaker hs new_breaker).next_attempt_at ≡ some t)
          × ((now < t) ⊎ ((before_call options now (run_breaker hs new_breaker)).0 ≡ ok tt))
    unfolding IsWell before_call admit_probe
    never_locked_out hs now e =
        let well = run_breaker-IsWell hs new_breaker (tt, (some_probe, some_failure)) in
        elim (Option-cases (run_breaker hs new_breaker).next_attempt_at) [
          | inl never ↦ absurd (ground arith)
          | inr (t, et) ↦ (t, et, ground arith)
        ]
