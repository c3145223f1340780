-- ===== src/Retry/Loop.antt =====
-- `withRetry` and `retryOrThrow` of src/utils/retry.util.ts on an operation that changes a state.
-- The test for errors that are worth a retry is an argument, as in the policy of the code; measured
-- times and log lines are left out.
use xelma_backend.Base.{
  ℕ, zero, suc, ◌+◌, ◌*◌, min, Bool, true, false, ◌&&◌, ltb, Option, none, some, List, [], ◌∷◌,
  Result, ok, err, Action,
}

pub record RetryPolicy (E : Type 0) : Type 0 where
  pub max_attempts : ℕ
  pub initial_delay : ℕ
  pub max_delay : ℕ
  pub backoff_multiplier : ℕ
  pub is_retryable : E → Bool

-- What came out last, `none` if nothing was tried; the attempts made; and the waits between them.
pub record RetryResult (E A : Type 0) : Type 0 where
  pub last : Option (Result E A)
  pub attempts_used : ℕ
  pub waits : List ℕ

module _ {E S A : Type 0} (policy : RetryPolicy E) (operation : Action E S A) where
  open policy use {max_attempts, initial_delay, max_delay, backoff_multiplier, is_retryable}

  abbrev pub next_delay : ℕ → ℕ
  next_delay delay = min (delay * backoff_multiplier) max_delay

  abbrev pub once : Result E A → RetryResult E A
  once r = record { last = some r; attempts_used = 1; waits = [] }

  abbrev pub after_wait : ℕ → RetryResult E A → RetryResult E A
  after_wait wait rest = record {
    last = rest.last;
    attempts_used = rest.attempts_used + 1;
    waits = wait ∷ rest.waits;
  }

  -- The loop, with the number of attempts that are left.
  unfoldable pub retry_from : (left delay : ℕ) → S → RetryResult E A × S
  retry_from zero delay s = (record { last = none; attempts_used = 0; waits = [] }, s)
  retry_from (suc left) delay s =
      let (r, s') = operation s in
      elim r [
        | ok a ↦ (once (ok a), s')
        | err e ↦ elim (is_retryable e && ltb 0 left) [
          | false ↦ (once (err e), s')
          | true ↦
              let (rest, s'') = retry_from left (next_delay delay) s' in
              (after_wait (next_delay delay) rest, s'')
        ]
      ]

  unfoldable pub with_retry : S → RetryResult E A × S
  with_retry s = retry_from max_attempts initial_delay s

  -- `throw result.error`; the code's own error if nothing was tried.
  abbrev outcome : E → Option (Result E A) → Result E A
  outcome unknown none = err unknown
  outcome unknown (some r) = r

  unfoldable pub retry_or_throw : (unknown : E) → Action E S A
  retry_or_throw unknown s = let (r, s') = with_retry s in (outcome unknown r.last, s')
