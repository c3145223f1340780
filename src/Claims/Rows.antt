-- ===== src/Claims/Rows.antt =====
-- The Claim table of prisma/schema.prisma.
use xelma_backend.Base.{ℕ, Bool, true, false, ◌&&◌, ◌==◌, Option, none, String, List, Row}

pub data ClaimStatus : Type 0 where
  pending submitted confirmed failed needs_manual_review : ClaimStatus

abbrev pub claim_status_eq : ClaimStatus → ClaimStatus → Bool
claim_status_eq ClaimStatus.pending ClaimStatus.pending = true
claim_status_eq ClaimStatus.submitted ClaimStatus.submitted = true
claim_status_eq ClaimStatus.confirmed ClaimStatus.confirmed = true
claim_status_eq ClaimStatus.failed ClaimStatus.failed = true
claim_status_eq ClaimStatus.needs_manual_review ClaimStatus.needs_manual_review = true
claim_status_eq _ _ = false

pub record Claim : Type 0 where
  pub id : ℕ
  pub user_id : Option ℕ
  pub wallet_address : ℕ
  pub amount : Option ℕ
  pub status : ClaimStatus
  pub tx_hash : Option ℕ
  pub attempts : ℕ
  pub last_error : Option String
  pub claimed_at : Option ℕ
  pub created_at : ℕ
  pub updated_at : ℕ

instance abbrev pub claim_row : Row Claim
claim_row = record { key = λ c. c.id }

-- The table, and the identifiers that the database makes up for it.
pub record Ledger : Type 0 where
  pub claims : List Claim
  pub next_id : ℕ

-- `status: { in: [PENDING, FAILED] }`
abbrev pub is_retryable : ClaimStatus → Bool
is_retryable ClaimStatus.pending = true
is_retryable ClaimStatus.failed = true
is_retryable _ = false

-- `status: { in: [PENDING, SUBMITTED, FAILED] }`
abbrev pub is_open : ClaimStatus → Bool
is_open ClaimStatus.pending = true
is_open ClaimStatus.submitted = true
is_open ClaimStatus.failed = true
is_open _ = false

abbrev pub is_open_of : (wallet : ℕ) → Claim → Bool
is_open_of wallet c = c.wallet_address == wallet && is_open c.status

-- A new row, with the defaults of the columns.
abbrev pub blank_claim : (now id : ℕ) (user_id : Option ℕ) (wallet : ℕ) → ClaimStatus → Claim
blank_claim now id user_id wallet status = record {
  id = id;
  user_id = user_id;
  wallet_address = wallet;
  amount = none;
  status = status;
  tx_hash = none;
  attempts = 0;
  last_error = none;
  claimed_at = none;
  created_at = now;
  updated_at = now;
}
