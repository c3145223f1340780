-- ===== src/Claims/Finality.antt =====
-- What every write of the ledger keeps: a row whose status is final.
use xelma_backend.Base.{
  ℕ, ◌≡◌, refl, Bool, true, false, Option, none, some, String, List, [], ◌∷◌, ◌++◌, find,
  find-update, arith, Option-cases, Bool-cases, inl, inr,
}
use xelma_backend.Schema.{user_row}
use xelma_backend.Claims.Rows.{
  ClaimStatus, claim_status_eq, Claim, claim_row, Ledger, is_retryable, is_open, blank_claim,
}
use xelma_backend.Claims.Writes.{
  guarded, create_claim, Claimed, mark_submitted, mark_confirmed, record_failed_attempt,
  flag_for_review, record_claim_submission, record_claim_failure, submitted_by_worker,
  confirmed_claim, attempted, next_status, will_flag, submitted_by_user,
}

-- A row of the first ledger that is settled is in the second as it was.
abbrev pub KeepsFinal : Ledger → Ledger → Type 0
KeepsFinal l l' =
    (id : ℕ) (c : Claim)
    → find id l.claims ≡ some c
    → is_open c.status ≡ false
    → find id l'.claims ≡ some c

pub find-append_some :
    (k : ℕ) (cs ds : List Claim) (c : Claim) → find k cs ≡ some c → find k (cs ++ ds) ≡ some c
find-append_some k [] ds c e = absurd (ground arith)
find-append_some k (x ∷ cs) ds c e = ground (arith, find-append_some k cs ds c)

-- A guard that lets no final status through.
abbrev pub IsOpenGuard : (ClaimStatus → Bool) → Type 0
IsOpenGuard guard = (s : ClaimStatus) → guard s ≡ true → is_open s ≡ true

pub guarded-KeepsFinal :
    (k : ℕ) (guard : ClaimStatus → Bool) (f : Claim → Claim) (l : Ledger)
    → IsOpenGuard guard
    → ((c : Claim) → (f c).id ≡ c.id)
    → KeepsFinal l (guarded k guard f l).1
unfolding guarded
guarded-KeepsFinal k guard f l opens keeps id c e final = elim (Option-cases (find k l.claims)) [
  | inl gone ↦ ground arith
  | inr (d, there) ↦ elim (Bool-cases (guard d.status)) [
    | inl met ↦ ground (arith, opens d.status met, find-update id k f l.claims keeps)
    | inr unmet ↦ ground arith
  ]
]

pub create_claim-KeepsFinal : (row : ℕ → Claim) (l : Ledger) → KeepsFinal l (create_claim row l)
create_claim-KeepsFinal row l id c e final = find-append_some id l.claims (row l.next_id ∷ []) c e

pub is_retryable-IsOpenGuard : IsOpenGuard is_retryable
is_retryable-IsOpenGuard s h = ground arith

pub claim_status_eq-IsOpenGuard :
    (s : ClaimStatus) → is_open s ≡ true → IsOpenGuard (claim_status_eq s)
claim_status_eq-IsOpenGuard ClaimStatus.pending o t h = ground arith
claim_status_eq-IsOpenGuard ClaimStatus.submitted o t h = ground arith
claim_status_eq-IsOpenGuard ClaimStatus.confirmed o t h = ground arith
claim_status_eq-IsOpenGuard ClaimStatus.failed o t h = ground arith
claim_status_eq-IsOpenGuard ClaimStatus.needs_manual_review o t h = ground arith

-- The writes, one by one.
pub mark_submitted-KeepsFinal :
    (now : ℕ) (r : Claimed) (row : Claim) (l : Ledger) → KeepsFinal l (mark_submitted now r row l).1
unfolding mark_submitted
mark_submitted-KeepsFinal now r row l =
    guarded-KeepsFinal row.id is_retryable (submitted_by_worker now r row.tx_hash) l
      is_retryable-IsOpenGuard (λ c. refl)

pub mark_confirmed-KeepsFinal :
    (now : ℕ) (b : Bool) (row : Claim) (l : Ledger) → KeepsFinal l (mark_confirmed now b row l).1
unfolding mark_confirmed
mark_confirmed-KeepsFinal now b row l =
    guarded-KeepsFinal row.id is_open (confirmed_claim now b row.amount) l (λ s h. h) (λ c. refl)

pub record_failed_attempt-KeepsFinal :
    (now max : ℕ) (e : String) (row : Claim) (l : Ledger)
    → is_open row.status ≡ true
    → KeepsFinal l (record_failed_attempt now max e row l).1
unfolding record_failed_attempt
record_failed_attempt-KeepsFinal now max e row l o =
    guarded-KeepsFinal row.id (claim_status_eq row.status)
      (attempted now (next_status (will_flag max row)) e) l
      (claim_status_eq-IsOpenGuard row.status o) (λ c. refl)

pub flag_for_review-KeepsFinal :
    (now : ℕ) (e : String) (row : Claim) (l : Ledger)
    → is_open row.status ≡ true
    → KeepsFinal l (flag_for_review now e row l).1
unfolding flag_for_review
flag_for_review-KeepsFinal now e row l o =
    guarded-KeepsFinal row.id (claim_status_eq row.status)
      (attempted now ClaimStatus.needs_manual_review e) l (claim_status_eq-IsOpenGuard row.status o)
      (λ c. refl)

pub record_claim_submission-KeepsFinal :
    (now w : ℕ) (r : Claimed) (existing : Option ℕ) (l : Ledger)
    → KeepsFinal l (record_claim_submission now w r existing l)
unfolding record_claim_submission
record_claim_submission-KeepsFinal now w r (some id) l =
    guarded-KeepsFinal id is_retryable (submitted_by_user now r) l is_retryable-IsOpenGuard
      (λ c. refl)
record_claim_submission-KeepsFinal now w r none l =
    create_claim-KeepsFinal
      (λ id. submitted_by_user now r (blank_claim now id none w ClaimStatus.pending)) l

pub record_claim_failure-KeepsFinal :
    (now w : ℕ) (e : String) (existing : Option ℕ) (l : Ledger)
    → KeepsFinal l (record_claim_failure now w e existing l)
unfolding record_claim_failure
record_claim_failure-KeepsFinal now w e (some id) l =
    guarded-KeepsFinal id is_retryable (attempted now ClaimStatus.failed e) l
      is_retryable-IsOpenGuard (λ c. refl)
record_claim_failure-KeepsFinal now w e none l =
    create_claim-KeepsFinal
      (λ id. attempted now ClaimStatus.failed e (blank_claim now id none w ClaimStatus.pending)) l
