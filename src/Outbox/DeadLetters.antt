-- ===== src/Outbox/DeadLetters.antt =====
-- `retry`, `retryAll` and `cleanupResolved` of src/services/dead-letter-queue.service.ts. A dry run
-- only reads and is left out.
use xelma_backend.Base.{
  ℕ, ◌+◌, Bool, true, false, Option, none, some, String, List, [], ◌∷◌, find, update, filter, take,
  leb, length, min, max, if◌then◌else◌,
}
use xelma_backend.Outbox.Rows.{DispatchStatus, FailedDispatch, Mailbox, dead_row}

abbrev pub replayed : (now : ℕ) → FailedDispatch → FailedDispatch
replayed now d = record d {
  status = DispatchStatus.resolved;
  resolved_at = some now;
  last_retry_at = some now;
  attempts = d.attempts + 1;
}

abbrev pub next_dispatch_status : (max_attempts attempts : ℕ) → DispatchStatus
next_dispatch_status max_attempts attempts =
    if leb max_attempts attempts then DispatchStatus.abandoned else DispatchStatus.retrying

abbrev pub failed_again : (now max_attempts : ℕ) (error : String) → FailedDispatch → FailedDispatch
failed_again now max_attempts error d = record d {
  status = next_dispatch_status max_attempts (d.attempts + 1);
  attempts = d.attempts + 1;
  last_retry_at = some now;
  last_error = error;
}

pub record RetryResult : Type 0 where
  pub id : ℕ
  pub status : DispatchStatus
  pub attempts : ℕ

abbrev pub result_of : FailedDispatch → RetryResult
result_of d = record { id = d.id; status = d.status; attempts = d.attempts }

module _ (now max_attempts : ℕ) (answer : FailedDispatch → Option String) where
  abbrev pub replay : Option String → FailedDispatch → Mailbox → Option RetryResult × Mailbox
  replay none d m = (
    some (result_of (replayed now d)),
    record m { dead = update d.id (replayed now) m.dead; delivered = d.payload ∷ m.delivered },
  )
  replay (some error) d m = (
    some (result_of (failed_again now max_attempts error d)),
    record m { dead = update d.id (failed_again now max_attempts error) m.dead },
  )

  -- A row that is RESOLVED is not replayed.
  abbrev pub retry_row : FailedDispatch → Mailbox → Option RetryResult × Mailbox
  retry_row d m = elim d.status [
    | DispatchStatus.resolved ↦ (some (result_of d), m)
    | _ ↦ replay (answer d) d m
  ]

  unfoldable pub retry : (id : ℕ) → Mailbox → Option RetryResult × Mailbox
  retry id m = elim (find id m.dead) [ none ↦ (none, m) | some d ↦ retry_row d m ]

  unfoldable pub retry_each : List FailedDispatch → Mailbox → List (Option RetryResult) × Mailbox
  retry_each [] m = ([], m)
  retry_each (d ∷ ds) m =
      let (r, m₁) = retry d.id m in let (rs, m₂) = retry_each ds m₁ in (r ∷ rs, m₂)

abbrev pub is_replayable : FailedDispatch → Bool
is_replayable d = elim d.status [
  | DispatchStatus.pending ↦ true
  | DispatchStatus.retrying ↦ true
  | _ ↦ false
]

pub record RetrySummary : Type 0 where
  pub attempted : ℕ
  pub resolved : ℕ
  pub failed : ℕ
  pub abandoned : ℕ

abbrev pub count_result : Option RetryResult → RetrySummary → RetrySummary
count_result none s = s
count_result (some r) s = elim r.status [
  | DispatchStatus.resolved ↦ record s { resolved = s.resolved + 1 }
  | DispatchStatus.abandoned ↦ record s { abandoned = s.abandoned + 1; failed = s.failed + 1 }
  | _ ↦ record s { failed = s.failed + 1 }
]

abbrev pub summary_of : (attempted : ℕ) → List (Option RetryResult) → RetrySummary
summary_of attempted [] = record { attempted = attempted; resolved = 0; failed = 0; abandoned = 0 }
summary_of attempted (r ∷ rs) = count_result r (summary_of attempted rs)

abbrev pub to_retry : (limit : ℕ) → List FailedDispatch → List FailedDispatch
to_retry limit ds = take (min (max limit 1) 200) (filter is_replayable ds)

abbrev summed_up : (attempted : ℕ) → List (Option RetryResult) × Mailbox → RetrySummary × Mailbox
summed_up attempted (rs, m) = (summary_of attempted rs, m)

unfoldable pub retry_all :
    (now limit max_attempts : ℕ) (answer : FailedDispatch → Option String)
    → Mailbox
    → RetrySummary × Mailbox
retry_all now limit max_attempts answer m =
    summed_up (length (to_retry limit m.dead))
      (retry_each now max_attempts answer (to_retry limit m.dead) m)

abbrev is_kept : (cutoff : ℕ) → DispatchStatus → Option ℕ → Bool
is_kept cutoff DispatchStatus.resolved (some t) = leb cutoff t
is_kept cutoff _ _ = true

unfoldable pub cleanup_resolved : (cutoff : ℕ) → Mailbox → Mailbox
cleanup_resolved cutoff m = record m {
  dead = filter (λ d. is_kept cutoff d.status d.resolved_at) m.dead;
}
