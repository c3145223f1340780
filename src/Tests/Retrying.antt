-- ===== src/Tests/Retrying.antt =====
-- A witness of the theorem on retries.
use xelma_backend.Base.{ℕ, ◌+◌, ltb, ok, err, Action, if◌then◌else◌, arith}
use xelma_backend.Retry.{RetryPolicy, with_retry}
use xelma_backend.Retry.Limits.{IsLimited, with_retry-IsLimited}

abbrev a_policy : RetryPolicy ℕ
a_policy = record {
  max_attempts = 3;
  initial_delay = 50;
  max_delay = 120;
  backoff_multiplier = 2;
  is_retryable = λ e. ltb e 10;
}

-- Fails twice, then succeeds.
abbrev third_time : Action ℕ ℕ ℕ
third_time tries = (if ltb tries 2 then err tries else ok tries, tries + 1)

with_retry-IsLimited_example : IsLimited a_policy third_time 3 (with_retry a_policy third_time 0).0
with_retry-IsLimited_example = with_retry-IsLimited a_policy third_time 0 (omega arith)
