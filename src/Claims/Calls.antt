-- ===== src/Claims/Calls.antt =====
-- Sequences of the calls that touch the claim ledger, in any order, with others' commits during each.
use xelma_backend.Base.{
  ℕ, ◌≡◌, refl, Bool, true, false, Option, none, some, List, [], ◌∷◌, Result, ok, err,
}
use xelma_backend.Schema.{Db, ChainError, user_row}
use xelma_backend.Claims.Rows.{ClaimStatus, Claim, claim_row, Ledger, blank_claim}
use xelma_backend.Claims.Writes.{
  Claimed, record_claim_submission, record_claim_failure, queue_claim,
}
use xelma_backend.Claims.Claiming.{
  claim_winnings, ClaimReply, submit_claim, claim_unless_submitted, oldest_open,
}
use xelma_backend.Claims.Worker.{PayoutConfig, ClaimChain, reconcile_pending_payouts}
use xelma_backend.Claims.Sweep.{sweep_unclaimed_winnings}
use xelma_backend.Claims.Walk.{HasWrites}
use xelma_backend.Claims.Finality.{
  KeepsFinal, create_claim-KeepsFinal, mark_submitted-KeepsFinal, mark_confirmed-KeepsFinal,
  record_failed_attempt-KeepsFinal, flag_for_review-KeepsFinal, record_claim_submission-KeepsFinal,
  record_claim_failure-KeepsFinal,
}

pub refl-KeepsFinal : (l : Ledger) → KeepsFinal l l
refl-KeepsFinal l id c e final = e

pub trans-KeepsFinal : (l₁ l₂ l₃ : Ledger) → KeepsFinal l₁ l₂ → KeepsFinal l₂ l₃ → KeepsFinal l₁ l₃
trans-KeepsFinal l₁ l₂ l₃ h k id c e final = k id c (h id c e final) final

-- The user's call.
pub claim_winnings-KeepsFinal :
    (r : ClaimReply) (stub : Bool) (w : ℕ) (l : Ledger)
    → ((l : Ledger) → KeepsFinal l (r.meanwhile l))
    → KeepsFinal l (claim_winnings r stub w l).1
unfolding claim_winnings submit_claim
claim_winnings-KeepsFinal r true w l quiet = refl-KeepsFinal l
claim_winnings-KeepsFinal r false w l quiet = by_row (oldest_open w l.claims)
  where
    by_reply :
        (existing : Option ℕ) (reply : Result ChainError Claimed)
        → KeepsFinal l (submit_claim r w existing reply l).1
    by_reply existing (ok claimed) =
        trans-KeepsFinal l (r.meanwhile l)
          (record_claim_submission r.now w claimed existing (r.meanwhile l)) (quiet l)
          (record_claim_submission-KeepsFinal r.now w claimed existing (r.meanwhile l))
    by_reply existing (err e) =
        trans-KeepsFinal l (r.meanwhile l)
          (record_claim_failure r.now w e.message existing (r.meanwhile l)) (quiet l)
          (record_claim_failure-KeepsFinal r.now w e.message existing (r.meanwhile l))

    by_status :
        (s : ClaimStatus) (c : Claim)
        → c.status ≡ s
        → KeepsFinal l (claim_unless_submitted r w (some c) l).1
    by_status ClaimStatus.submitted c e = rw e (refl-KeepsFinal l)
    by_status ClaimStatus.pending c e = rw e (by_reply (some c.id) r.reply)
    by_status ClaimStatus.failed c e = rw e (by_reply (some c.id) r.reply)
    by_status ClaimStatus.confirmed c e = rw e (by_reply (some c.id) r.reply)
    by_status ClaimStatus.needs_manual_review c e = rw e (by_reply (some c.id) r.reply)

    by_row : (o : Option Claim) → KeepsFinal l (claim_unless_submitted r w o l).1
    by_row none = by_reply none r.reply
    by_row (some c) = by_status c.status c refl

pub KeepsFinal-HasWrites : HasWrites KeepsFinal
KeepsFinal-HasWrites = record {
  same = refl-KeepsFinal;
  andthen = trans-KeepsFinal;
  submits = mark_submitted-KeepsFinal;
  confirms = mark_confirmed-KeepsFinal;
  fails = record_failed_attempt-KeepsFinal;
  flags = flag_for_review-KeepsFinal;
}

pub queue_claim-KeepsFinal : (now u w : ℕ) (l : Ledger) → KeepsFinal l (queue_claim now u w l)
unfolding queue_claim
queue_claim-KeepsFinal now u w l =
    create_claim-KeepsFinal (λ id. blank_claim now id (some u) w ClaimStatus.pending) l

-- A call of the service, with its arguments, the replies it gets and what others commit meanwhile.
pub data ClaimCall : Type 0 where
  by_user : ClaimReply → (stub : Bool) (address : ℕ) → ClaimCall
  by_worker : PayoutConfig → ClaimChain → ClaimCall
  by_sweep : (now batch_size : ℕ) → Db → ClaimCall

unfoldable pub make_call : ClaimCall → Ledger → Ledger
make_call (by_user r stub address) l = (claim_winnings r stub address l).1
make_call (by_worker config chain) l = (reconcile_pending_payouts config chain l).1
make_call (by_sweep now batch_size db) l = (sweep_unclaimed_winnings now batch_size db l).1

unfoldable pub make_calls : List ClaimCall → Ledger → Ledger
make_calls [] l = l
make_calls (c ∷ cs) l = make_calls cs (make_call c l)

-- What others commit during a call stays in the relation.
abbrev pub OthersIn : (Ledger → Ledger → Type 0) → ClaimCall → Type 0
OthersIn R (by_user r stub address) = (l : Ledger) → R l (r.meanwhile l)
OthersIn R (by_worker config chain) = (l : Ledger) → R l (chain.meanwhile l)
OthersIn R (by_sweep now batch_size db) = Unit
