-- ===== src/Claims/Single.antt =====
-- One open claim per wallet.
use xelma_backend.Base.{
  ℕ, ◌≡◌, ◌≤◌, refl, Bool, true, false, Option, none, some, List, [], ◌∷◌, Result, ok, err, find,
  find_first, sum_by, sum_by-update, sum_by-append, All, arith, Option-cases, Bool-cases, inl, inr,
  if◌then◌else◌, ◌⊎◌, ◌≢◌,
}
use xelma_backend.Schema.{ChainError}
use xelma_backend.Claims.Rows.{
  ClaimStatus, claim_status_eq, Claim, claim_row, Ledger, is_retryable, is_open, is_open_of,
  blank_claim,
}
use xelma_backend.Claims.Writes.{
  guarded, create_claim, Claimed, mark_submitted, mark_confirmed, record_failed_attempt,
  flag_for_review, record_claim_submission, record_claim_failure, queue_claim, submitted_by_worker,
  confirmed_claim, attempted, next_status, will_flag, submitted_by_user,
}
use xelma_backend.Claims.Claiming.{
  claim_winnings, ClaimReply, submit_claim, claim_unless_submitted, oldest_open,
}
use xelma_backend.Claims.Walk.{HasWrites, reconcile_pending_payouts_in}
use xelma_backend.Claims.SweepWalk.{sweep_unclaimed_winnings_in}
use xelma_backend.Claims.Finality.{
  IsOpenGuard, is_retryable-IsOpenGuard, claim_status_eq-IsOpenGuard,
}
use xelma_backend.Claims.Calls.{
  ClaimCall, by_user, by_worker, by_sweep, make_call, make_calls, OthersIn,
}

abbrev pub one_if_open : (wallet : ℕ) → Claim → ℕ
one_if_open wallet c = if is_open_of wallet c then 1 else 0

-- How many open claims a wallet has.
unfoldable pub open_count : (wallet : ℕ) → Ledger → ℕ
open_count wallet l = sum_by (one_if_open wallet) l.claims

abbrev pub OpensNone : Ledger → Ledger → Type 0
OpensNone l l' = (w : ℕ) → open_count w l' ≤ open_count w l

abbrev KeepsSingle : Ledger → Ledger → Type 0
KeepsSingle l l' = ((w : ℕ) → open_count w l ≤ 1) → (w : ℕ) → open_count w l' ≤ 1

guarded-OpensNone :
    (k : ℕ) (guard : ClaimStatus → Bool) (f : Claim → Claim) (l : Ledger)
    → IsOpenGuard guard
    → ((c : Claim) → (f c).wallet_address ≡ c.wallet_address)
    → OpensNone l (guarded k guard f l).1
unfolding guarded open_count
guarded-OpensNone k guard f l opens keeps w = elim (Option-cases (find k l.claims)) [
  | inl gone ↦ ground arith
  | inr (d, there) ↦ elim (Bool-cases (guard d.status)) [
    | inl met ↦
        ground
          (arith, opens d.status met, keeps d, sum_by-update (one_if_open w) k f d l.claims there)
    | inr unmet ↦ ground arith
  ]
]

find_first-none_count :
    (w : ℕ) (cs : List Claim) → find_first (is_open_of w) cs ≡ none → sum_by (one_if_open w) cs ≡ 0
find_first-none_count w [] e = refl
find_first-none_count w (c ∷ cs) e = ground (arith, find_first-none_count w cs)

oldest_open-none_count :
    (w : ℕ) (cs : List Claim) → oldest_open w cs ≡ none → sum_by (one_if_open w) cs ≡ 0
unfolding oldest_open
oldest_open-none_count w [] e = refl
oldest_open-none_count w (c ∷ cs) e = ground (arith, oldest_open-none_count w cs)

create_claim-KeepsSingle :
    (row : ℕ → Claim) (w : ℕ) (l : Ledger)
    → ((id : ℕ) → (row id).wallet_address ≡ w)
    → open_count w l ≡ 0
    → KeepsSingle l (create_claim row l)
unfolding open_count
create_claim-KeepsSingle row w l its none_open single v =
    ground
      (arith, its l.next_id, single v, sum_by-append (one_if_open v) l.claims (row l.next_id ∷ []))

OpensNone-HasWrites : HasWrites OpensNone
unfolding mark_submitted mark_confirmed record_failed_attempt flag_for_review
OpensNone-HasWrites = record {
  same = λ l w. omega arith;
  andthen = λ l₁ l₂ l₃ h k w. omega (arith, h w, k w);
  submits = λ now r row l.
      guarded-OpensNone row.id is_retryable (submitted_by_worker now r row.tx_hash) l
        is_retryable-IsOpenGuard (λ c. refl);
  confirms = λ now b row l.
      guarded-OpensNone row.id is_open (confirmed_claim now b row.amount) l (λ s h. h) (λ c. refl);
  fails = λ now max e row l o.
      guarded-OpensNone row.id (claim_status_eq row.status)
        (attempted now (next_status (will_flag max row)) e) l
        (claim_status_eq-IsOpenGuard row.status o) (λ c. refl);
  flags = λ now e row l o.
      guarded-OpensNone row.id (claim_status_eq row.status)
        (attempted now ClaimStatus.needs_manual_review e) l
        (claim_status_eq-IsOpenGuard row.status o) (λ c. refl);
}

single_of_none : (l l' : Ledger) → OpensNone l l' → KeepsSingle l l'
single_of_none l l' h single w = omega (arith, h w, single w)

queue_claim-KeepsSingle :
    (now u w : ℕ) (l : Ledger)
    → find_first (is_open_of w) l.claims ≡ none
    → KeepsSingle l (queue_claim now u w l)
unfolding queue_claim open_count
queue_claim-KeepsSingle now u w l none_open =
    create_claim-KeepsSingle (λ id. blank_claim now id (some u) w ClaimStatus.pending) w l
      (λ id. refl) (find_first-none_count w l.claims none_open)

-- A claim that the user's call makes or goes on with.
submit_claim-KeepsSingle :
    (r : ClaimReply) (w : ℕ) (existing : Option ℕ) (reply : Result ChainError Claimed) (l : Ledger)
    → OthersIn OpensNone (by_user r false w)
    → (open_count w l ≡ 0) ⊎ (existing ≢ none)
    → KeepsSingle l (submit_claim r w existing reply l).1
unfolding submit_claim record_claim_submission record_claim_failure
submit_claim-KeepsSingle r w (some id) (ok claimed) l quiet fresh single v = omega (
  arith,
  single v,
  quiet l v,
  guarded-OpensNone id is_retryable (submitted_by_user r.now claimed) (r.meanwhile l)
      is_retryable-IsOpenGuard (λ c. refl) v,
)
submit_claim-KeepsSingle r w (some id) (err e) l quiet fresh single v = omega (
  arith,
  single v,
  quiet l v,
  guarded-OpensNone id is_retryable (attempted r.now ClaimStatus.failed e.message) (r.meanwhile l)
      is_retryable-IsOpenGuard (λ c. refl) v,
)
submit_claim-KeepsSingle r w none (ok claimed) l quiet (inr some_row) single v =
    absurd (some_row refl)
submit_claim-KeepsSingle r w none (err e) l quiet (inr some_row) single v = absurd (some_row refl)
submit_claim-KeepsSingle r w none (ok claimed) l quiet (inl fresh) single v =
    create_claim-KeepsSingle
      (λ id. submitted_by_user r.now claimed (blank_claim r.now id none w ClaimStatus.pending)) w
      (r.meanwhile l) (λ id. refl) (omega (arith, quiet l w))
      (λ u. omega (arith, quiet l u, single u)) v
submit_claim-KeepsSingle r w none (err e) l quiet (inl fresh) single v =
    create_claim-KeepsSingle
      (λ id.
        attempted r.now ClaimStatus.failed e.message
          (blank_claim r.now id none w ClaimStatus.pending))
      w (r.meanwhile l) (λ id. refl) (omega (arith, quiet l w))
      (λ u. omega (arith, quiet l u, single u)) v

claim_winnings-KeepsSingle :
    (r : ClaimReply) (stub : Bool) (w : ℕ) (l : Ledger)
    → OthersIn OpensNone (by_user r stub w)
    → KeepsSingle l (claim_winnings r stub w l).1
unfolding claim_winnings open_count
claim_winnings-KeepsSingle r true w l quiet = λ single. single
claim_winnings-KeepsSingle r false w l quiet = by_row (oldest_open w l.claims) refl
  where
    by_status :
        (s : ClaimStatus) (c : Claim)
        → c.status ≡ s
        → KeepsSingle l (claim_unless_submitted r w (some c) l).1
    by_status ClaimStatus.submitted c e = rw e (λ single. single)
    by_status ClaimStatus.pending c e =
        rw e (submit_claim-KeepsSingle r w (some c.id) r.reply l quiet (inr (λ h. cc)))
    by_status ClaimStatus.failed c e =
        rw e (submit_claim-KeepsSingle r w (some c.id) r.reply l quiet (inr (λ h. cc)))
    by_status ClaimStatus.confirmed c e =
        rw e (submit_claim-KeepsSingle r w (some c.id) r.reply l quiet (inr (λ h. cc)))
    by_status ClaimStatus.needs_manual_review c e =
        rw e (submit_claim-KeepsSingle r w (some c.id) r.reply l quiet (inr (λ h. cc)))

    by_row :
        (o : Option Claim)
        → oldest_open w l.claims ≡ o
        → KeepsSingle l (claim_unless_submitted r w o l).1
    by_row none e =
        submit_claim-KeepsSingle r w none r.reply l quiet
          (inl (oldest_open-none_count w l.claims e))
    by_row (some c) e = by_status c.status c refl

make_call-KeepsSingle :
    (c : ClaimCall) (l : Ledger) → OthersIn OpensNone c → KeepsSingle l (make_call c l)
unfolding make_call
make_call-KeepsSingle (by_user r stub w) l quiet = claim_winnings-KeepsSingle r stub w l quiet
make_call-KeepsSingle (by_worker config chain) l quiet =
    single_of_none l _
      (reconcile_pending_payouts_in config chain OpensNone OpensNone-HasWrites quiet l)
make_call-KeepsSingle (by_sweep now batch_size db) l quiet =
    sweep_unclaimed_winnings_in KeepsSingle (λ l single. single)
      (λ l₁ l₂ l₃ h k single. k (h single)) queue_claim-KeepsSingle now batch_size db l

-- Through any sequence of users' claims, passes of the worker and sweeps, no wallet ever has more
-- than one open claim (PENDING, SUBMITTED or FAILED), if none has at the start and what others
-- commit during a call opens no claim.
pub make_calls_single :
    (cs : List ClaimCall) (l : Ledger)
    → All (OthersIn OpensNone) cs
    → ((w : ℕ) → open_count w l ≤ 1)
    → (w : ℕ) → open_count w (make_calls cs l) ≤ 1
unfolding make_calls
make_calls_single [] l quiet single = single
make_calls_single (x ∷ xs) l quiet single =
    make_calls_single xs (make_call x l) quiet.1 (make_call-KeepsSingle x l quiet.0 single)
