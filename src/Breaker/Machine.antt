-- ===== src/Breaker/Machine.antt =====
-- The class of src/utils/circuit-breaker.ts, one function per method. The clock is an argument;
-- metrics and log lines are left out.
use xelma_backend.Base.{
  ℕ, ◌+◌, ◌-◌, Bool, false, leb, Option, none, some, Result, ok, err, if◌then◌else◌,
}

pub data BreakerState : Type 0 where
  closed opened half_open : BreakerState

pub record Options : Type 0 where
  pub failure_threshold : ℕ
  pub open_backoff : ℕ
  pub half_open_max_calls : ℕ

pub record Breaker : Type 0 where
  pub state : BreakerState
  pub failure_count : ℕ
  pub opened_at : Option ℕ
  pub next_attempt_at : Option ℕ
  pub half_open_in_flight : ℕ

-- CircuitBreakerOpenError
pub data BreakerError : Type 0 where
  open_until : ℕ → BreakerError

-- The fields of a new breaker.
abbrev pub new_breaker : Breaker
new_breaker = record {
  state = BreakerState.closed;
  failure_count = 0;
  opened_at = none;
  next_attempt_at = none;
  half_open_in_flight = 0;
}

unfoldable pub reset : Breaker → Breaker
reset b = new_breaker

abbrev or_later : Option ℕ → ℕ → ℕ
or_later none later = later
or_later (some t) later = t

-- `nextAttemptAtMs !== null && now() >= nextAttemptAtMs`
abbrev is_due : Option ℕ → ℕ → Bool
is_due none now = false
is_due (some t) now = leb t now

module _ (options : Options) where
  open options use {failure_threshold, open_backoff, half_open_max_calls}

  abbrev refused : (now : ℕ) → Breaker → Result BreakerError (Unit {0}) × Breaker
  refused now b = (err (open_until (or_later b.next_attempt_at (now + open_backoff))), b)

  -- One more probe, if there is room for it.
  unfoldable pub admit_probe : (now : ℕ) → Breaker → Result BreakerError (Unit {0}) × Breaker
  admit_probe now b =
      if leb half_open_max_calls b.half_open_in_flight
      then refused now b
      else (ok tt, record b { half_open_in_flight = b.half_open_in_flight + 1 })

  -- `beforeCall`
  unfoldable pub before_call : (now : ℕ) → Breaker → Result BreakerError (Unit {0}) × Breaker
  before_call now b = elim b.state [
    | BreakerState.closed ↦ (ok tt, b)
    | BreakerState.half_open ↦ admit_probe now b
    | BreakerState.opened ↦
        if is_due b.next_attempt_at now
        then admit_probe now (record b { state = BreakerState.half_open })
        else refused now b
  ]

  -- `open`
  unfoldable pub trip : (now : ℕ) → Breaker → Breaker
  trip now b = record b {
    state = BreakerState.opened;
    opened_at = some now;
    next_attempt_at = some (now + open_backoff);
  }

  -- `onSuccess`
  unfoldable pub on_success : Breaker → Breaker
  on_success b = elim b.state [
    | BreakerState.half_open ↦ record b {
      state = BreakerState.closed;
      failure_count = 0;
      opened_at = none;
      next_attempt_at = none;
      half_open_in_flight = b.half_open_in_flight - 1;
    }
    | _ ↦ record b { failure_count = 0 }
  ]

  -- A failure that is counted.
  abbrev counted : (now : ℕ) → Breaker → Breaker
  counted now b = if leb failure_threshold b.failure_count then trip now b else b

  -- `onFailure`
  unfoldable pub on_failure : (now : ℕ) → Breaker → Breaker
  on_failure now b = elim b.state [
    | BreakerState.half_open ↦
        trip now (record b { half_open_in_flight = b.half_open_in_flight - 1 })
    | _ ↦ counted now (record b { failure_count = b.failure_count + 1 })
  ]
