-- ===== src/Claims/Final.antt =====
-- A claim that is settled stays as it is.
use xelma_backend.Base.{◌≡◌, false, some, List, [], ◌∷◌, find, All, ℕ}
use xelma_backend.Claims.Rows.{Claim, claim_row, Ledger, is_open}
use xelma_backend.Claims.Walk.{reconcile_pending_payouts_in}
use xelma_backend.Claims.SweepWalk.{sweep_unclaimed_winnings_in}
use xelma_backend.Claims.Finality.{KeepsFinal}
use xelma_backend.Claims.Calls.{
  refl-KeepsFinal, trans-KeepsFinal, KeepsFinal-HasWrites, queue_claim-KeepsFinal,
  claim_winnings-KeepsFinal, ClaimCall, by_user, by_worker, by_sweep, make_call, make_calls,
  OthersIn,
}

make_call-KeepsFinal :
    (c : ClaimCall) (l : Ledger) → OthersIn KeepsFinal c → KeepsFinal l (make_call c l)
unfolding make_call
make_call-KeepsFinal (by_user r stub w) l quiet = claim_winnings-KeepsFinal r stub w l quiet
make_call-KeepsFinal (by_worker config chain) l quiet =
    reconcile_pending_payouts_in config chain KeepsFinal KeepsFinal-HasWrites quiet l
make_call-KeepsFinal (by_sweep now batch_size db) l quiet =
    sweep_unclaimed_winnings_in KeepsFinal refl-KeepsFinal trans-KeepsFinal
      (λ now u w l none_open. queue_claim-KeepsFinal now u w l) now batch_size db l

-- Through any sequence of users' claims, passes of the worker and sweeps, a claim that was CONFIRMED
-- or NEEDS_MANUAL_REVIEW is never written again, if what others commit during those calls leaves such
-- claims alone too.
pub make_calls-KeepsFinal :
    (cs : List ClaimCall) (l : Ledger)
    → All (OthersIn KeepsFinal) cs
    → (id : ℕ) (c : Claim) → find id l.claims ≡ some c
    → is_open c.status ≡ false
    → find id (make_calls cs l).claims ≡ some c
unfolding make_calls
make_calls-KeepsFinal [] l quiet id c there settled = there
make_calls-KeepsFinal (x ∷ xs) l quiet id c there settled =
    make_calls-KeepsFinal xs (make_call x l) quiet.1 id c
      (make_call-KeepsFinal x l quiet.0 id c there settled) settled
