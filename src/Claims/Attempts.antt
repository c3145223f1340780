-- ===== src/Claims/Attempts.antt =====
-- An attempt of the worker on one claim.
use xelma_backend.Base.{
  ℕ, zero, suc, is_some, ◌≡◌, ◌≢◌, ◌==◌, refl, sym, Bool, true, false, none, some, Result, ok, err,
  find, find_first, find-update_self, arith, Option-cases, Bool-cases, inl, inr,
}
use xelma_backend.Schema.{ChainError}
use xelma_backend.Claims.Rows.{ClaimStatus, Claim, claim_row, Ledger, is_retryable, is_open}
use xelma_backend.Claims.Writes.{
  guarded, Claimed, mark_submitted, mark_confirmed, submitted_by_worker, confirmed_claim, will_flag,
  record_failed_attempt,
}
use xelma_backend.Claims.Worker.{
  PayoutConfig, ClaimChain, PendingReply, with_pending, Handled, if_met, attempt_claim,
  get_pending_winnings, in_flight_beside, by_claim_reply, failed_or_flagged,
}

-- A guarded write that met a row.
pub guarded_met :
    (k : ℕ) (guard : ClaimStatus → Bool) (f : Claim → Claim) (l : Ledger)
    → ((c : Claim) → (f c).id ≡ c.id)
    → (guarded k guard f l).0 ≡ true
    → (c : Claim) × (find k l.claims ≡ some c)
      × (guard c.status ≡ true)
      × (find k (guarded k guard f l).1.claims ≡ some (f c))
unfolding guarded
guarded_met k guard f l keeps met = elim (Option-cases (find k l.claims)) [
  | inl gone ↦ absurd (ground arith)
  | inr (c, there) ↦ elim (Bool-cases (guard c.status)) [
    | inl met_guard ↦
        (c, there, met_guard, ground (arith, find-update_self k f c l.claims keeps there))
    | inr unmet ↦ absurd (ground arith)
  ]
]

if_met_inv :
    (h : Handled) (p : Bool × Ledger)
    → (if_met h p).0 ≡ h
    → h ≢ Handled.untouched
    → (p.0 ≡ true) × ((if_met h p).1 ≡ p.1)
if_met_inv h (true, l) e ne = (refl, refl)
if_met_inv h (false, l) e ne = absurd (ne (sym e))

if_met_not :
    (h k : Handled) (p : Bool × Ledger) → h ≢ k → k ≢ Handled.untouched → (if_met h p).0 ≢ k
if_met_not h k (true, l) ne nu e = ne e
if_met_not h k (false, l) ne nu e = nu (sym e)

fails_not_submitted : (b : Bool) → failed_or_flagged b ≢ Handled.submitted
fails_not_submitted true e = cc
fails_not_submitted false e = cc

fails_not_closed : (b : Bool) → failed_or_flagged b ≢ Handled.no_pending
fails_not_closed true e = cc
fails_not_closed false e = cc

module _ (config : PayoutConfig) (chain : ClaimChain) (row : Claim) (l : Ledger) where
  -- What an attempt that reports a submission has done.
  pub record IsSubmission (claimed : Claimed) (c : Claim) : Type 0 where
    pub winnings_are_pending :
        (n : ℕ) × (get_pending_winnings (chain.pending_of row.wallet_address) ≡ some n) × (n ≢ 0)
    pub none_in_flight : find_first (in_flight_beside config chain row) l.claims ≡ none
    pub was_claimed : chain.claim_for row.wallet_address ≡ ok claimed
    pub was_there : find row.id (chain.meanwhile l).claims ≡ some c
    pub was_retryable : is_retryable c.status ≡ true
    pub is_written :
        find row.id (attempt_claim config chain row l).1.claims
        ≡ some (submitted_by_worker chain.now claimed row.tx_hash c)

  submitted_by_reply :
      (reply : Result ChainError Claimed) (l' : Ledger)
      → (by_claim_reply config chain reply row l').0 ≡ Handled.submitted
      → (claimed : Claimed) × (reply ≡ ok claimed)
        × ((mark_submitted chain.now claimed row l').0 ≡ true)
        × ((by_claim_reply config chain reply row l').1
            ≡ (mark_submitted chain.now claimed row l').1)
  submitted_by_reply (ok claimed) l' e =
      let done =
        if_met_inv Handled.submitted (mark_submitted chain.now claimed row l') e (λ h. cc) in
      (claimed, refl, done.0, done.1)
  submitted_by_reply (err x) l' e = absurd (
      if_met_not (failed_or_flagged (will_flag config.max_auto_attempts row)) Handled.submitted
        (record_failed_attempt chain.now config.max_auto_attempts "Claim submission failed" row l')
        (fails_not_submitted (will_flag config.max_auto_attempts row)) (λ h. cc) e)

  asked :
      (reply : Result ChainError Claimed) (l' : Ledger)
      → (by_claim_reply config chain reply row l').0 ≢ Handled.no_pending
  asked (ok claimed) l' =
      if_met_not Handled.submitted Handled.no_pending (mark_submitted chain.now claimed row l')
        (λ h. cc) (λ h. cc)
  asked (err x) l' =
      if_met_not (failed_or_flagged (will_flag config.max_auto_attempts row)) Handled.no_pending
        (record_failed_attempt chain.now config.max_auto_attempts "Claim submission failed" row l')
        (fails_not_closed (will_flag config.max_auto_attempts row)) (λ h. cc)

  -- If an attempt reports a submission, winnings were pending, no other claim of the wallet was in
  -- flight, the contract accepted the claim, and the row, still retryable in the database, is now
  -- SUBMITTED with the amount that the contract gave.
  pub attempt_claim-IsSubmission :
      (attempt_claim config chain row l).0 ≡ Handled.submitted
      → (claimed : Claimed) × (c : Claim) × IsSubmission claimed c
  unfolding attempt_claim mark_submitted
  attempt_claim-IsSubmission e =
      elim (Option-cases (get_pending_winnings (chain.pending_of row.wallet_address))) [
        | inl unread ↦ absurd (ground arith)
        | inr (n, read) ↦ elim (Bool-cases (n == 0)) [
          | inl nothing ↦ absurd (
              if_met_not Handled.no_pending Handled.submitted (mark_confirmed chain.now true row l)
                (λ h. cc) (λ h. cc) (ground arith))
          | inr owed ↦
              elim (Option-cases (find_first (in_flight_beside config chain row) l.claims)) [
                | inr (d, beside) ↦ absurd (ground arith)
                | inl alone ↦
                    let (claimed, replied, met, same) =
                      submitted_by_reply (chain.claim_for row.wallet_address) (chain.meanwhile l)
                        (ground arith) in
                    let (c, there, retryable, written) =
                      guarded_met row.id is_retryable
                        (submitted_by_worker chain.now claimed row.tx_hash) (chain.meanwhile l)
                        (λ c. refl) met in
                    (
                      claimed,
                      c,
                      record {
                        winnings_are_pending = (n, read, ground arith);
                        none_in_flight = alone;
                        was_claimed = replied;
                        was_there = there;
                        was_retryable = retryable;
                        is_written = ground arith;
                      },
                    )
              ]
        ]
      ]

  -- The row is closed as CONFIRMED with the amount 0.
  abbrev pub IsClosed : Handled × Ledger → Type 0
  IsClosed (h, l') =
      (h ≡ Handled.no_pending)
      × (c : Claim) × (find row.id l'.claims ≡ some c)
      × (c.status ≡ ClaimStatus.confirmed)
      × (c.amount ≡ some 0)

  -- What becomes of an open claim, by the way in which the call about its winnings ends.
  abbrev pub Reads : PendingReply → Handled × Ledger → Type 0
  Reads PendingReply.not_ready p = IsClosed p
  Reads PendingReply.back_pressure (h, l') = (h ≡ Handled.errored) × (l' ≡ l)
  Reads (PendingReply.answered zero) p = IsClosed p
  Reads (PendingReply.answered (suc n)) (h, l') = h ≢ Handled.no_pending
  Reads (PendingReply.call_failed e) p = IsClosed p

  pay_nothing :
      (c : Claim)
      → find row.id l.claims ≡ some c
      → is_open c.status ≡ true
      → IsClosed (if_met Handled.no_pending (mark_confirmed chain.now true row l))
  unfolding mark_confirmed guarded
  pay_nothing c there is_unsettled =
      rw (there, if_met, mark_confirmed, guarded)
        (rw (is_unsettled, if_met)
          (
            refl,
            confirmed_claim chain.now true row.amount c,
            find-update_self row.id (confirmed_claim chain.now true row.amount) c l.claims
                (λ c. refl) there,
            refl,
            refl,
          ))

  pay_something : (n : ℕ) → (with_pending config chain (some (suc n)) row l).0 ≢ Handled.no_pending
  unfolding mark_submitted record_failed_attempt
  pay_something n e =
      elim (Bool-cases (is_some (find_first (in_flight_beside config chain row) l.claims))) [
        | inl beside ↦ absurd (ground arith)
        | inr alone ↦
            absurd (asked (chain.claim_for row.wallet_address) (chain.meanwhile l) (ground arith))
      ]

  -- An attempt on an open claim closes it as CONFIRMED with the amount 0 if the contract answers that
  -- no winnings are pending, but also if the call fails or the client is not initialised; a refusal
  -- of the limiter is counted as an error and changes nothing; and if the contract answers with more
  -- than 0, the attempt never reports that nothing is pending.
  pub attempt_claim_unread :
      (c : Claim)
      → find row.id l.claims ≡ some c
      → is_open c.status ≡ true
      → Reads (chain.pending_of row.wallet_address) (attempt_claim config chain row l)
  unfolding attempt_claim get_pending_winnings
  attempt_claim_unread c there is_unsettled = by_reply (chain.pending_of row.wallet_address)
    where
      by_reply :
          (reply : PendingReply)
          → Reads reply (with_pending config chain (get_pending_winnings reply) row l)
      by_reply PendingReply.not_ready = pay_nothing c there is_unsettled
      by_reply PendingReply.back_pressure = (refl, refl)
      by_reply (PendingReply.answered zero) = pay_nothing c there is_unsettled
      by_reply (PendingReply.answered (suc n)) = pay_something n
      by_reply (PendingReply.call_failed e) = pay_nothing c there is_unsettled
