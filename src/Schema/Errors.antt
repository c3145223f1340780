-- ===== src/Schema/Errors.antt =====
-- src/utils/errors.ts, and what the database and the chain client throw.
use xelma_backend.Base.{Bool, String}
use xelma_backend.Schema.Enums.{RoundStatus}

-- An error of the chain client: its message, and whether it speaks of a timeout.
pub record ChainError : Type 0 where
  pub message : String
  pub is_timeout : Bool

pub data Error : Type 0 where
  validation : String → Error
  not_found : String → Error
  business_rule : String → Error
  round_not_active duplicate_prediction insufficient_funds : Error
  illegal_round_transition : RoundStatus → RoundStatus → Error
  external_service : String → Error
  -- Prisma's P2025: the row to update is not there.
  record_not_found : Error
  -- `new Error(message)`, and any other failure of the database.
  plain : String → Error
  chain : ChainError → Error
