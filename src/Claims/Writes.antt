-- ===== src/Claims/Writes.antt =====
-- The writes to the claim ledger, each one statement of the database. Every update is guarded by
-- the status of the row as the database has it, whatever the caller has read before.
use xelma_backend.Base.{
  ℕ, ◌+◌, Bool, true, false, leb, Option, none, some, String, [], ◌∷◌, ◌++◌, find, update,
  if◌then◌else◌,
}
use xelma_backend.Claims.Rows.{
  ClaimStatus, claim_status_eq, Claim, claim_row, Ledger, is_retryable, is_open, blank_claim,
}

-- `updateMany({ where: { id, status }, data })`, with whether it met the row.
unfoldable pub guarded : ℕ → (ClaimStatus → Bool) → (Claim → Claim) → Ledger → Bool × Ledger
guarded id guard f l = elim (find id l.claims) [
  | none ↦ (false, l)
  | some c ↦
      if guard c.status then (true, record l { claims = update id f l.claims }) else (false, l)
]

abbrev pub or_same : {A : Type 0} → Option A → Option A → Option A
or_same none old = old
or_same (some new) old = some new

-- What `sorobanService.claimWinnings` returns.
pub record Claimed : Type 0 where
  pub state : String
  pub amount : ℕ
  pub tx_hash : Option ℕ

-- The status write of `attemptClaim`; `hash` is the row's as the worker read it.
abbrev pub submitted_by_worker : (now : ℕ) → Claimed → (hash : Option ℕ) → Claim → Claim
submitted_by_worker now claimed hash c = record c {
  status = ClaimStatus.submitted;
  tx_hash = or_same claimed.tx_hash hash;
  amount = some claimed.amount;
  last_error = none;
  updated_at = now;
}

unfoldable pub mark_submitted : (now : ℕ) → Claimed → Claim → Ledger → Bool × Ledger
mark_submitted now claimed row =
    guarded row.id is_retryable (submitted_by_worker now claimed row.tx_hash)

-- The data of `markConfirmed`: with nothing pending the amount is 0, else it is the amount that the
-- worker read, if there was one.
abbrev pub confirmed_claim : (now : ℕ) (nothing_owed : Bool) (amount : Option ℕ) → Claim → Claim
confirmed_claim now nothing_owed amount c = record c {
  status = ClaimStatus.confirmed;
  amount = if nothing_owed then some 0 else or_same amount c.amount;
  last_error = none;
  claimed_at = some now;
  updated_at = now;
}

-- `markConfirmed`
unfoldable pub mark_confirmed : (now : ℕ) (nothing_owed : Bool) → Claim → Ledger → Bool × Ledger
mark_confirmed now nothing_owed row =
    guarded row.id is_open (confirmed_claim now nothing_owed row.amount)

abbrev pub attempted : (now : ℕ) → ClaimStatus → String → Claim → Claim
attempted now status reason c = record c {
  status = status;
  attempts = c.attempts + 1;
  last_error = some reason;
  updated_at = now;
}

-- Whether the attempts are exhausted, by the count that the worker read.
abbrev pub will_flag : (max_auto_attempts : ℕ) → Claim → Bool
will_flag max_auto_attempts row = leb max_auto_attempts (row.attempts + 1)

abbrev pub next_status : Bool → ClaimStatus
next_status true = ClaimStatus.needs_manual_review
next_status false = ClaimStatus.failed

-- `recordFailedAttempt`
unfoldable pub record_failed_attempt :
    (now max_auto_attempts : ℕ) (reason : String) → Claim → Ledger → Bool × Ledger
record_failed_attempt now max_auto_attempts reason row =
    guarded row.id (claim_status_eq row.status)
      (attempted now (next_status (will_flag max_auto_attempts row)) reason)

-- `flagForReview`
unfoldable pub flag_for_review : (now : ℕ) (reason : String) → Claim → Ledger → Bool × Ledger
flag_for_review now reason row =
    guarded row.id (claim_status_eq row.status)
      (attempted now ClaimStatus.needs_manual_review reason)

abbrev pub create_claim : (ℕ → Claim) → Ledger → Ledger
create_claim row l = record l { claims = l.claims ++ row l.next_id ∷ []; next_id = l.next_id + 1 }

abbrev pub submitted_by_user : (now : ℕ) → Claimed → Claim → Claim
submitted_by_user now claimed c = record c {
  status = ClaimStatus.submitted;
  tx_hash = or_same claimed.tx_hash c.tx_hash;
  amount = some claimed.amount;
  last_error = none;
  updated_at = now;
}

-- `recordClaimSubmission`
unfoldable pub record_claim_submission :
    (now address : ℕ) → Claimed → (existing : Option ℕ) → Ledger → Ledger
record_claim_submission now address claimed (some id) l =
    (guarded id is_retryable (submitted_by_user now claimed) l).1
record_claim_submission now address claimed none l =
    create_claim
      (λ id. submitted_by_user now claimed (blank_claim now id none address ClaimStatus.pending)) l

-- `recordClaimFailure`
unfoldable pub record_claim_failure :
    (now address : ℕ) (message : String) (existing : Option ℕ) → Ledger → Ledger
record_claim_failure now address message (some id) l =
    (guarded id is_retryable (attempted now ClaimStatus.failed message) l).1
record_claim_failure now address message none l =
    create_claim
      (λ id.
        attempted now ClaimStatus.failed message
          (blank_claim now id none address ClaimStatus.pending))
      l

-- The row that the sweep queues.
unfoldable pub queue_claim : (now user_id wallet : ℕ) → Ledger → Ledger
queue_claim now user_id wallet =
    create_claim (λ id. blank_claim now id (some user_id) wallet ClaimStatus.pending)
