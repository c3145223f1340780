-- ===== src/Tests/Claiming.antt =====
-- Claims: one player's claim, the worker's pass over the ledger, and a sweep.
use xelma_backend.Base.{
  ℕ, ◌≡◌, ◌≤◌, refl, true, false, none, some, List, [], ◌∷◌, ok, find, map, arith,
}
use xelma_backend.Schema.{Db, BetStatus}
use xelma_backend.Claims.{
  ClaimStatus, Claim, claim_row, Ledger, blank_claim, Claimed, ClaimReply, PayoutConfig, ClaimChain,
  PendingReply, Handled, attempt_claim, stuck_claims, reconcile_pending_payouts,
  sweep_unclaimed_winnings, sweep_groups, settled_bets, work_all, claim_winnings, oldest_open,
  submit_claim, record_claim_submission, guarded, work_on, reconcile_submitted, mark_confirmed,
  queue_claim, mark_submitted, get_pending_winnings,
}
use xelma_backend.Claims.Calls.{ClaimCall, by_user, by_worker, by_sweep, make_call, make_calls}
use xelma_backend.Claims.Final.{make_calls-KeepsFinal}
use xelma_backend.Claims.Single.{open_count, make_calls_single}
use xelma_backend.Claims.Attempts.{
  Reads, IsSubmission, attempt_claim-IsSubmission, attempt_claim_unread,
}
use xelma_backend.Tests.Data.{alice, bob, a_bet}

abbrev waiting : Claim
waiting = blank_claim 10 0 (some 1) 11 ClaimStatus.pending

abbrev closed : Claim
closed = blank_claim 5 1 (some 2) 12 ClaimStatus.confirmed

abbrev a_ledger : Ledger
a_ledger = record { claims = waiting ∷ closed ∷ []; next_id = 2 }

abbrev paid : Claimed
paid = record { state = "claimed"; amount = 30; tx_hash = some 900 }

abbrev a_claim_reply : ClaimReply
a_claim_reply = record { now = 100; reply = ok paid; meanwhile = λ l. l }

abbrev a_payout_config : PayoutConfig
a_payout_config = record {
  pending_age = 10;
  submitted_age = 20;
  batch_size = 5;
  max_auto_attempts = 3;
}

abbrev a_claim_chain : ClaimChain
a_claim_chain = record {
  now = 200;
  pending_of = λ w. PendingReply.answered 30;
  status_of = λ h. ok (record { confirmed = true; successful = true; error_not_found = none });
  claim_for = λ w. ok paid;
  meanwhile = λ l. l;
}

abbrev unread_chain : ClaimChain
unread_chain = record a_claim_chain {
  pending_of = λ w. PendingReply.call_failed (record { message = "timeout"; is_timeout = true });
}

abbrev settled_db : Db
settled_db = record {
  users = alice ∷ bob ∷ [];
  rounds = [];
  predictions = [];
  bets = a_bet BetStatus.resolved ∷ [];
  outbox = [];
  next_id = 1;
}

abbrev some_calls : List ClaimCall
some_calls =
    by_user a_claim_reply false 11
    ∷ by_worker a_payout_config a_claim_chain
    ∷ by_sweep 300 5 settled_db
    ∷ []

make_calls-KeepsFinal_example : find 1 (make_calls some_calls a_ledger).claims ≡ some closed
make_calls-KeepsFinal_example =
    make_calls-KeepsFinal some_calls a_ledger (λ l id c e final. e, (λ l id c e final. e, (tt, tt)))
      1 closed refl refl

one_waiting : (w : ℕ) → open_count w a_ledger ≤ 1
unfolding open_count
one_waiting w = ground arith

make_calls_single_example : open_count 11 (make_calls some_calls a_ledger) ≤ 1
make_calls_single_example =
    make_calls_single some_calls a_ledger (λ l w. omega arith, (λ l w. omega arith, (tt, tt)))
      one_waiting 11

submits_waiting :
    (attempt_claim a_payout_config a_claim_chain waiting a_ledger).0 ≡ Handled.submitted
unfolding attempt_claim get_pending_winnings mark_submitted guarded
submits_waiting = refl

attempt_claim-IsSubmission_example :
    (claimed : Claimed) × (c : Claim) × IsSubmission a_payout_config a_claim_chain waiting a_ledger
      claimed c
attempt_claim-IsSubmission_example =
    attempt_claim-IsSubmission a_payout_config a_claim_chain waiting a_ledger submits_waiting

attempt_claim_unread_example :
    Reads a_payout_config unread_chain waiting a_ledger
      (PendingReply.call_failed (record { message = "timeout"; is_timeout = true }))
      (attempt_claim a_payout_config unread_chain waiting a_ledger)
attempt_claim_unread_example =
    attempt_claim_unread a_payout_config unread_chain waiting a_ledger waiting refl refl

-- The player's claim is submitted and then confirmed; the sweep queues the next one.
whole_run :
    map (λ c. c.status) (make_calls some_calls a_ledger).claims
    ≡ ClaimStatus.confirmed ∷ ClaimStatus.confirmed ∷ ClaimStatus.pending ∷ []
unfolding make_calls make_call sweep_unclaimed_winnings sweep_groups settled_bets
    reconcile_pending_payouts work_all stuck_claims claim_winnings oldest_open submit_claim
    record_claim_submission guarded work_on reconcile_submitted mark_confirmed queue_claim
whole_run = refl
