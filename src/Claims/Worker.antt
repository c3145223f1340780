-- ===== src/Claims/Worker.antt =====
-- The worker of src/services/payout-reconciliation.service.ts, and `getPendingWinnings` of
-- src/services/soroban.service.ts as the worker sees it. Replies of the chain are arguments; a reason
-- is kept without the details that the chain adds, and is not cut to 1000 characters.
use xelma_backend.Base.{
  ℕ, ◌-◌, Bool, true, false, ◌&&◌, ◌||◌, ◌==◌, not, ltb, leb, Option, none, some, String, List, [],
  ◌∷◌, find_first, filter, take, Result, ok, err, if◌then◌else◌, is_some,
}
use xelma_backend.Schema.{user_row, ChainError}
use xelma_backend.Claims.Rows.{ClaimStatus, claim_status_eq, Claim, claim_row, Ledger, is_retryable}
use xelma_backend.Claims.Writes.{
  Claimed, will_flag, mark_submitted, mark_confirmed, record_failed_attempt, flag_for_review,
}

pub record PayoutConfig : Type 0 where
  pub pending_age : ℕ
  pub submitted_age : ℕ
  pub batch_size : ℕ
  pub max_auto_attempts : ℕ

-- What `getTransactionStatus` reports; the error is whether it says that the transaction was not
-- found, if there is one.
pub record ClaimTxStatus : Type 0 where
  pub confirmed : Bool
  pub successful : Bool
  pub error_not_found : Option Bool

-- How the call behind `getPendingWinnings` ends: the client is not initialised, the contract answers,
-- the call fails or the breaker is open, or the limiter of the RPC refuses the call.
pub data PendingReply : Type 0 where
  not_ready back_pressure : PendingReply
  answered : (winnings : ℕ) → PendingReply
  call_failed : ChainError → PendingReply

-- The chain client while the worker runs: how the call about pending winnings ends, and what the two
-- other calls return. `meanwhile` is what others
-- commit to the ledger during a claim call.
pub record ClaimChain : Type 0 where
  pub now : ℕ
  pub pending_of : (wallet : ℕ) → PendingReply
  pub status_of : (tx_hash : ℕ) → Result ChainError ClaimTxStatus
  pub claim_for : (wallet : ℕ) → Result ChainError Claimed
  pub meanwhile : Ledger → Ledger

-- `getPendingWinnings`: a call that fails is answered with 0; a refusal of the limiter is thrown, here
-- `none`, which `readPendingWinnings` answers with null.
unfoldable pub get_pending_winnings : PendingReply → Option ℕ
get_pending_winnings PendingReply.not_ready = some 0
get_pending_winnings PendingReply.back_pressure = none
get_pending_winnings (PendingReply.answered n) = some n
get_pending_winnings (PendingReply.call_failed e) = some 0

-- What became of a row, by the counter that it raises.
pub data Handled : Type 0 where
  submitted confirmed no_pending failed flagged errored untouched : Handled

-- A counter, or `noop` where the guarded update met nothing.
abbrev pub if_met : Handled → Bool × Ledger → Handled × Ledger
if_met h (true, l) = (h, l)
if_met h (false, l) = (Handled.untouched, l)

abbrev pub failed_or_flagged : Bool → Handled
failed_or_flagged true = Handled.flagged
failed_or_flagged false = Handled.failed

-- The rows that are worked on, the oldest first.
abbrev pub insert_by_age : Claim → List Claim → List Claim
insert_by_age c [] = c ∷ []
insert_by_age c (d ∷ ds) =
    if leb c.created_at d.created_at then c ∷ d ∷ ds else d ∷ insert_by_age c ds

abbrev pub sort_by_age : List Claim → List Claim
sort_by_age [] = []
sort_by_age (c ∷ cs) = insert_by_age c (sort_by_age cs)

module _ (config : PayoutConfig) (chain : ClaimChain) where
  open chain use {now, pending_of, status_of, claim_for, meanwhile}
  open config use {pending_age, submitted_age, batch_size, max_auto_attempts}

  abbrev pub fail_attempt : String → Claim → Ledger → Handled × Ledger
  fail_attempt reason row l =
      if_met (failed_or_flagged (will_flag max_auto_attempts row))
        (record_failed_attempt now max_auto_attempts reason row l)

  abbrev pub without_hash : (pending : Option ℕ) → Claim → Ledger → Handled × Ledger
  without_hash none row l = (Handled.errored, l)
  without_hash (some pending) row l =
      if pending == 0
      then if_met Handled.confirmed (mark_confirmed now false row l)
      else fail_attempt "Claim submission has no txHash and winnings are still pending" row l

  abbrev pub unconfirmed : Option Bool → Claim → Ledger → Handled × Ledger
  unconfirmed (some true) row l =
      fail_attempt "Claim transaction not found on-chain; retrying claim" row l
  unconfirmed (some false) row l = (Handled.errored, l)
  unconfirmed none row l = (Handled.untouched, l)

  abbrev pub by_tx_status :
      (confirmed successful : Bool) → Option Bool → Claim → Ledger → Handled × Ledger
  by_tx_status true true e row l = if_met Handled.confirmed (mark_confirmed now false row l)
  by_tx_status true false e row l =
      if_met Handled.flagged (flag_for_review now "Claim transaction reverted on-chain" row l)
  by_tx_status false s e row l = unconfirmed e row l

  abbrev pub with_hash : Result ChainError ClaimTxStatus → Claim → Ledger → Handled × Ledger
  with_hash (ok s) row l = by_tx_status s.confirmed s.successful s.error_not_found row l
  with_hash (err e) row l = (Handled.errored, l)

  -- `reconcileSubmitted`
  unfoldable pub reconcile_submitted : Claim → Ledger → Handled × Ledger
  reconcile_submitted row l = elim row.tx_hash [
    | none ↦ without_hash (get_pending_winnings (pending_of row.wallet_address)) row l
    | some hash ↦ with_hash (status_of hash) row l
  ]

  abbrev pub in_flight_beside : Claim → Claim → Bool
  in_flight_beside row c =
      c.wallet_address == row.wallet_address
      && claim_status_eq c.status ClaimStatus.submitted
      && not (c.id == row.id)

  abbrev pub by_claim_reply : Result ChainError Claimed → Claim → Ledger → Handled × Ledger
  by_claim_reply (ok claimed) row l = if_met Handled.submitted (mark_submitted now claimed row l)
  by_claim_reply (err e) row l = fail_attempt "Claim submission failed" row l

  -- An attempt with the winnings that were read; it stops where they could not be read.
  abbrev pub with_pending : Option ℕ → Claim → Ledger → Handled × Ledger
  with_pending none row l = (Handled.errored, l)
  with_pending (some pending) row l =
      if pending == 0
      then if_met Handled.no_pending (mark_confirmed now true row l)
      else if is_some (find_first (in_flight_beside row) l.claims)
      then (Handled.untouched, l)
      else by_claim_reply (claim_for row.wallet_address) row (meanwhile l)

  -- `attemptClaim`
  unfoldable pub attempt_claim : Claim → Ledger → Handled × Ledger
  attempt_claim row l = with_pending (get_pending_winnings (pending_of row.wallet_address)) row l

  -- The body of the loop on one row, as it was read.
  unfoldable pub work_on : Claim → Ledger → Handled × Ledger
  work_on row l = elim row.status [
    | ClaimStatus.submitted ↦ reconcile_submitted row l
    | _ ↦ attempt_claim row l
  ]

  abbrev pub is_stuck : Claim → Bool
  is_stuck c =
      (claim_status_eq c.status ClaimStatus.submitted && ltb c.updated_at (now - submitted_age))
      || (is_retryable c.status && ltb c.updated_at (now - pending_age))

  unfoldable pub stuck_claims : List Claim → List Claim
  stuck_claims cs = take batch_size (sort_by_age (filter is_stuck cs))

  unfoldable pub work_all : List Claim → Ledger → List Handled × Ledger
  work_all [] l = ([], l)
  work_all (row ∷ rows) l =
      let (h, l₁) = work_on row l in let (hs, l₂) = work_all rows l₁ in (h ∷ hs, l₂)

  -- `reconcilePendingPayouts`, with what became of each row in place of the counters.
  unfoldable pub reconcile_pending_payouts : Ledger → List Handled × Ledger
  reconcile_pending_payouts l = work_all (stuck_claims l.claims) l
