-- ===== src/Claims/Claiming.antt =====
-- `claimWinnings` of src/services/bet.service.ts. The reply of the contract, and what others commit
-- to the ledger while it is asked, are arguments; audit events and logs are left out.
use xelma_backend.Base.{
  ℕ, Bool, true, false, Option, none, some, List, Result, ok, err, leb, if◌then◌else◌, [], ◌∷◌,
}
use xelma_backend.Schema.{Error, ChainError}
use xelma_backend.Claims.Rows.{ClaimStatus, Claim, claim_row, Ledger, is_open_of}
use xelma_backend.Claims.Writes.{Claimed, record_claim_submission, record_claim_failure}

pub record ClaimReply : Type 0 where
  pub now : ℕ
  pub reply : Result ChainError Claimed
  pub meanwhile : Ledger → Ledger

abbrev older : Claim → Option Claim → Option Claim
older c none = some c
older c (some d) = if leb c.created_at d.created_at then some c else some d

-- `findFirst` by `createdAt`, the oldest first.
unfoldable pub oldest_open : (wallet : ℕ) → List Claim → Option Claim
oldest_open wallet [] = none
oldest_open wallet (c ∷ cs) =
    let rest = oldest_open wallet cs in if is_open_of wallet c then older c rest else rest

abbrev or_zero : Option ℕ → ℕ
or_zero none = 0
or_zero (some n) = n

abbrev id_of : Option Claim → Option ℕ
id_of none = none
id_of (some c) = some c.id

abbrev already_submitted : Claim → Claimed
already_submitted c = record {
  state = "already-submitted";
  amount = or_zero c.amount;
  tx_hash = c.tx_hash;
}

-- The chain call and the ledger row that records it.
unfoldable pub submit_claim :
    ClaimReply
    → (address : ℕ) (existing : Option ℕ) → Result ChainError Claimed
    → Ledger
    → Result Error Claimed × Ledger
submit_claim r address existing (ok claimed) l =
    (ok claimed, record_claim_submission r.now address claimed existing (r.meanwhile l))
submit_claim r address existing (err e) l =
    (err (Error.chain e), record_claim_failure r.now address e.message existing (r.meanwhile l))

abbrev pub claim_unless_submitted :
    ClaimReply → (address : ℕ) → Option Claim → Ledger → Result Error Claimed × Ledger
claim_unless_submitted r address none l = submit_claim r address none r.reply l
claim_unless_submitted r address (some c) l = elim c.status [
  | ClaimStatus.submitted ↦ (ok (already_submitted c), l)
  | _ ↦ submit_claim r address (some c.id) r.reply l
]

unfoldable pub claim_winnings :
    ClaimReply → (stub : Bool) (address : ℕ) → Ledger → Result Error Claimed × Ledger
claim_winnings r true address l = (ok (record { state = "stub"; amount = 0; tx_hash = none }), l)
claim_winnings r false address l = claim_unless_submitted r address (oldest_open address l.claims) l
