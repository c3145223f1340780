-- ===== src/Claims/Walk.antt =====
-- The worker's pass, for any relation on ledgers that its single writes stay in.
use xelma_backend.Base.{
  ℕ, zero, suc, ◌≡◌, ◌==◌, refl, Bool, true, false, Option, none, some, String, List, [], ◌∷◌,
  Result, ok, err, find_first, take, filter, All, arith, if◌then◌else◌, is_some, leb,
}
use xelma_backend.Schema.{ChainError}
use xelma_backend.Claims.Rows.{ClaimStatus, Claim, Ledger, is_open}
use xelma_backend.Claims.Writes.{
  Claimed, mark_submitted, mark_confirmed, record_failed_attempt, flag_for_review, will_flag,
}
use xelma_backend.Claims.Worker.{
  PayoutConfig, ClaimChain, ClaimTxStatus, Handled, if_met, reconcile_submitted, attempt_claim,
  work_on, work_all, is_stuck, insert_by_age, stuck_claims, reconcile_pending_payouts,
  get_pending_winnings, in_flight_beside, sort_by_age, fail_attempt, without_hash, unconfirmed,
  by_tx_status, with_hash, by_claim_reply, failed_or_flagged, with_pending,
}

abbrev pub IsOpen : Claim → Type 0
IsOpen c = is_open c.status ≡ true

pub record HasWrites (R : Ledger → Ledger → Type 0) : Type 0 where
  pub same : (l : Ledger) → R l l
  pub andthen : (l₁ l₂ l₃ : Ledger) → R l₁ l₂ → R l₂ l₃ → R l₁ l₃
  pub submits :
      (now : ℕ) (r : Claimed) (row : Claim) (l : Ledger) → R l (mark_submitted now r row l).1
  pub confirms :
      (now : ℕ) (b : Bool) (row : Claim) (l : Ledger) → R l (mark_confirmed now b row l).1
  pub fails :
      (now max : ℕ) (e : String) (row : Claim) (l : Ledger)
      → IsOpen row
      → R l (record_failed_attempt now max e row l).1
  pub flags :
      (now : ℕ) (e : String) (row : Claim) (l : Ledger)
      → IsOpen row
      → R l (flag_for_review now e row l).1

-- The rows that are read are open.
take-IsOpen : (n : ℕ) (cs : List Claim) → All IsOpen cs → All IsOpen (take n cs)
take-IsOpen zero cs h = tt
take-IsOpen (suc n) [] h = tt
take-IsOpen (suc n) (c ∷ cs) h = (h.0, take-IsOpen n cs h.1)

if-IsOpen :
    (b : Bool) (cs ds : List Claim)
    → (b ≡ true → All IsOpen cs)
    → (b ≡ false → All IsOpen ds)
    → All IsOpen (if b then cs else ds)
if-IsOpen true cs ds h k = h refl
if-IsOpen false cs ds h k = k refl

insert_by_age-IsOpen :
    (c : Claim) (cs : List Claim) → IsOpen c → All IsOpen cs → All IsOpen (insert_by_age c cs)
insert_by_age-IsOpen c [] p h = (p, tt)
insert_by_age-IsOpen c (d ∷ ds) p h =
    if-IsOpen (leb c.created_at d.created_at) (c ∷ d ∷ ds) (d ∷ insert_by_age c ds) (λ e. (p, h))
      (λ e. (h.0, insert_by_age-IsOpen c ds p h.1))

sort_by_age-IsOpen : (cs : List Claim) → All IsOpen cs → All IsOpen (sort_by_age cs)
sort_by_age-IsOpen [] h = tt
sort_by_age-IsOpen (c ∷ cs) h =
    insert_by_age-IsOpen c (sort_by_age cs) h.0 (sort_by_age-IsOpen cs h.1)

module _ (config : PayoutConfig) (chain : ClaimChain) where
  is_stuck-IsOpen : (c : Claim) → is_stuck config chain c ≡ true → IsOpen c
  is_stuck-IsOpen c h = by_status c.status refl
    where
      by_status : (s : ClaimStatus) → c.status ≡ s → IsOpen c
      by_status ClaimStatus.pending e = ground arith
      by_status ClaimStatus.submitted e = ground arith
      by_status ClaimStatus.failed e = ground arith
      by_status ClaimStatus.confirmed e = absurd (ground arith)
      by_status ClaimStatus.needs_manual_review e = absurd (ground arith)

  filter-IsOpen : (cs : List Claim) → All IsOpen (filter (is_stuck config chain) cs)
  filter-IsOpen [] = tt
  filter-IsOpen (c ∷ cs) =
      let rest = filter-IsOpen cs in
      if-IsOpen (is_stuck config chain c) (c ∷ filter (is_stuck config chain) cs)
        (filter (is_stuck config chain) cs) (λ e. (is_stuck-IsOpen c e, rest)) (λ e. rest)

  pub stuck_claims-IsOpen : (cs : List Claim) → All IsOpen (stuck_claims config chain cs)
  unfolding stuck_claims
  stuck_claims-IsOpen cs =
      take-IsOpen config.batch_size (sort_by_age (filter (is_stuck config chain) cs))
        (sort_by_age-IsOpen (filter (is_stuck config chain) cs) (filter-IsOpen cs))

  module _ (R : Ledger → Ledger → Type 0) (w : HasWrites R) where
    met : (h : Handled) (l : Ledger) (p : Bool × Ledger) → R l p.1 → R l (if_met h p).1
    met h l (true, l') k = k
    met h l (false, l') k = k

    fail_attempt_in :
        (e : String) (row : Claim) (l : Ledger)
        → IsOpen row
        → R l (fail_attempt config chain e row l).1
    fail_attempt_in e row l o =
        met (failed_or_flagged (will_flag config.max_auto_attempts row)) l
          (record_failed_attempt chain.now config.max_auto_attempts e row l)
          (w.fails chain.now config.max_auto_attempts e row l o)

    confirm_in :
        (h : Handled) (b : Bool) (row : Claim) (l : Ledger)
        → R l (if_met h (mark_confirmed chain.now b row l)).1
    confirm_in h b row l = met h l (mark_confirmed chain.now b row l) (w.confirms chain.now b row l)

    reconcile_submitted_in :
        (row : Claim) (l : Ledger) → IsOpen row → R l (reconcile_submitted config chain row l).1
    unfolding reconcile_submitted
    reconcile_submitted_in row l o = go row.tx_hash
      where
        by_pending :
            (b : Bool)
            → R l
                (if b
                  then if_met Handled.confirmed (mark_confirmed chain.now false row l)
                  else fail_attempt config chain
                      "Claim submission has no txHash and winnings are still pending" row l).1
        by_pending true = confirm_in Handled.confirmed false row l
        by_pending false =
            fail_attempt_in "Claim submission has no txHash and winnings are still pending" row l o

        by_read : (pending : Option ℕ) → R l (without_hash config chain pending row l).1
        by_read none = w.same l
        by_read (some pending) = by_pending (pending == 0)

        by_error : (e : Option Bool) → R l (unconfirmed config chain e row l).1
        by_error (some true) =
            fail_attempt_in "Claim transaction not found on-chain; retrying claim" row l o
        by_error (some false) = w.same l
        by_error none = w.same l

        by_status : (c s : Bool) (e : Option Bool) → R l (by_tx_status config chain c s e row l).1
        by_status true true e = confirm_in Handled.confirmed false row l
        by_status true false e =
            met Handled.flagged l
              (flag_for_review chain.now "Claim transaction reverted on-chain" row l)
              (w.flags chain.now "Claim transaction reverted on-chain" row l o)
        by_status false s e = by_error e

        by_reply : (r : Result ChainError ClaimTxStatus) → R l (with_hash config chain r row l).1
        by_reply (ok s) = by_status s.confirmed s.successful s.error_not_found
        by_reply (err e) = w.same l

        go :
            (hash : Option ℕ)
            → R l
                (elim hash as (λ x. Handled × Ledger) [
                  | none ↦
                      without_hash config chain
                        (get_pending_winnings (chain.pending_of row.wallet_address))
                        row
                        l
                  | some h ↦ with_hash config chain (chain.status_of h) row l
                ]).1
        go none = by_read (get_pending_winnings (chain.pending_of row.wallet_address))
        go (some h) = by_reply (chain.status_of h)

    module _ (quiet : (l : Ledger) → R l (chain.meanwhile l)) where
      by_claim_reply_in :
          (r : Result ChainError Claimed) (row : Claim) (l : Ledger)
          → IsOpen row
          → R l (by_claim_reply config chain r row l).1
      by_claim_reply_in (ok claimed) row l o =
          met Handled.submitted l (mark_submitted chain.now claimed row l)
            (w.submits chain.now claimed row l)
      by_claim_reply_in (err e) row l o = fail_attempt_in "Claim submission failed" row l o

      attempt_claim_in :
          (row : Claim) (l : Ledger) → IsOpen row → R l (attempt_claim config chain row l).1
      unfolding attempt_claim
      attempt_claim_in row l o =
          by_read (get_pending_winnings (chain.pending_of row.wallet_address))
        where
          go :
              (b f : Bool)
              → R l
                  (if b
                    then if_met Handled.no_pending (mark_confirmed chain.now true row l)
                    else if f
                    then (Handled.untouched, l)
                    else by_claim_reply config chain
                        (chain.claim_for row.wallet_address)
                        row
                        (chain.meanwhile l)).1
          go true f = confirm_in Handled.no_pending true row l
          go false true = w.same l
          go false false =
              w.andthen l (chain.meanwhile l) _ (quiet l)
                (by_claim_reply_in (chain.claim_for row.wallet_address) row (chain.meanwhile l) o)

          by_read : (pending : Option ℕ) → R l (with_pending config chain pending row l).1
          by_read none = w.same l
          by_read (some pending) =
              go (pending == 0) (is_some (find_first (in_flight_beside config chain row) l.claims))

      work_on_in : (row : Claim) (l : Ledger) → IsOpen row → R l (work_on config chain row l).1
      unfolding work_on
      work_on_in row l o = go row.status
        where
          go :
              (s : ClaimStatus)
              → R l
                  (elim s as (λ x. Handled × Ledger) [
                    | ClaimStatus.submitted ↦ reconcile_submitted config chain row l
                    | _ ↦ attempt_claim config chain row l
                  ]).1
          go ClaimStatus.submitted = reconcile_submitted_in row l o
          go ClaimStatus.pending = attempt_claim_in row l o
          go ClaimStatus.failed = attempt_claim_in row l o
          go ClaimStatus.confirmed = attempt_claim_in row l o
          go ClaimStatus.needs_manual_review = attempt_claim_in row l o

      work_all_in :
          (rows : List Claim) (l : Ledger) → All IsOpen rows → R l (work_all config chain rows l).1
      unfolding work_all
      work_all_in [] l h = w.same l
      work_all_in (row ∷ rows) l h =
          w.andthen l (work_on config chain row l).1 _ (work_on_in row l h.0)
            (work_all_in rows (work_on config chain row l).1 h.1)

      pub reconcile_pending_payouts_in :
          (l : Ledger) → R l (reconcile_pending_payouts config chain l).1
      unfolding reconcile_pending_payouts
      reconcile_pending_payouts_in l =
          work_all_in (stuck_claims config chain l.claims) l (stuck_claims-IsOpen l.claims)
