-- ===== src/Retry/Limits.antt =====
-- How often and how long `withRetry` tries: src/utils/retry.util.ts.
use xelma_backend.Base.{
  ℕ, zero, suc, ◌+◌, ◌≡◌, ◌≤◌, ◌<◌, ◌⊎◌, inl, inr, refl, Bool, true, false, ◌&&◌, ltb, Option, none,
  some, Result, ok, err, Action, All, length, arith,
}
use xelma_backend.Retry.Loop.{
  RetryPolicy, RetryResult, next_delay, once, after_wait, retry_from, with_retry,
}

module _ {E S A : Type 0} (policy : RetryPolicy E) (operation : Action E S A) where
  -- A run of at most `n` attempts: one wait less than attempts, none above the limit, and at the end
  -- the result of the operation: a success, an error that is not worth a retry, or the last error.
  abbrev pub EndsWell : Option (Result E A) → (attempts n : ℕ) → Type 0
  EndsWell none attempts n = ⊥
  EndsWell (some (ok a)) attempts n = Unit
  EndsWell (some (err e)) attempts n = (policy.is_retryable e ≡ false) ⊎ (attempts ≡ n)

  abbrev pub IsLimited : ℕ → RetryResult E A → Type 0
  IsLimited n r =
      (r.attempts_used ≤ n)
      × (length r.waits + 1 ≡ r.attempts_used)
      × All (λ w. w ≤ policy.max_delay) r.waits
      × EndsWell r.last r.attempts_used n

  after_wait-IsLimited :
      (n wait : ℕ) (r : RetryResult E A)
      → wait ≤ policy.max_delay
      → IsLimited n r
      → IsLimited (suc n) (after_wait policy operation wait r)
  after_wait-IsLimited n wait r le (bound, waits, short, ends) =
      (omega arith, omega arith, (le, short), later r.last ends)
    where
      later :
          (l : Option (Result E A))
          → EndsWell l r.attempts_used n
          → EndsWell l (r.attempts_used + 1) (suc n)
      later none ends = ends
      later (some (ok a)) ends = tt
      later (some (err e)) (inl fatal) = inl fatal
      later (some (err e)) (inr all) = inr (omega arith)

  -- One attempt before a limited rest.
  attempt-IsLimited :
      (left delay : ℕ) (s : S)
      → ((s' : S)
          → 0 < left
          → IsLimited left
              (retry_from policy operation left (next_delay policy operation delay) s').0)
      → IsLimited (suc left) (retry_from policy operation (suc left) delay s).0
  unfolding retry_from
  attempt-IsLimited left delay s rest = go (operation s)
    where
      again :
          (e : E) (s' : S) (b : Bool)
          → (policy.is_retryable e && ltb 0 left) ≡ b
          → IsLimited
              (suc left)
              (elim b as (λ x. RetryResult E A × S) [
                | false ↦ (once policy operation (err e), s')
                | true ↦ (
                  after_wait policy operation
                      (next_delay policy operation delay)
                      (retry_from policy operation left (next_delay policy operation delay) s').0,
                  (retry_from policy operation left (next_delay policy operation delay) s').1,
                )
              ]).0
      again e s' true h =
          after_wait-IsLimited left (next_delay policy operation delay) _ (omega arith)
            (rest s' (ground arith))
      again e s' false h = (omega arith, refl, tt, ground arith)

      go :
          (p : Result E A × S)
          → IsLimited
              (suc left)
              (elim p.0 as (λ x. RetryResult E A × S) [
                | ok a ↦ (once policy operation (ok a), p.1)
                | err e ↦ elim (policy.is_retryable e && ltb 0 left) as (λ x. RetryResult E A × S) [
                  | false ↦ (once policy operation (err e), p.1)
                  | true ↦ (
                    after_wait policy operation
                        (next_delay policy operation delay)
                        (retry_from policy operation left
                          (next_delay policy operation delay)
                          p.1).0,
                    (retry_from policy operation left (next_delay policy operation delay) p.1).1,
                  )
                ]
              ]).0
      go (ok a, s') = (omega arith, refl, tt, tt)
      go (err e, s') = again e s' (policy.is_retryable e && ltb 0 left) refl

  retry_from-IsLimited :
      (n delay : ℕ) (s : S) → 0 < n → IsLimited n (retry_from policy operation n delay s).0
  retry_from-IsLimited zero delay s h = absurd (omega arith)
  retry_from-IsLimited (suc n) delay s h =
      attempt-IsLimited n delay s (retry_from-IsLimited n (next_delay policy operation delay))

  -- A retried operation whose policy allows an attempt is tried at least once and at most as often as
  -- allowed, waits once between attempts and never longer than the limit, and ends with a success,
  -- with an error that is not worth a retry, or after all the attempts.
  pub with_retry-IsLimited :
      (s : S)
      → 0 < policy.max_attempts
      → IsLimited policy.max_attempts (with_retry policy operation s).0
  unfolding with_retry
  with_retry-IsLimited s some_attempt =
      retry_from-IsLimited policy.max_attempts policy.initial_delay s some_attempt
