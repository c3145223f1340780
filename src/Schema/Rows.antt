-- ===== src/Schema/Rows.antt =====
-- The rows and the database. A JSON column holds whatever was written to it: a member that is
-- missing or no number is `none`.
use xelma_backend.Base.{ℕ, Bool, Option, List, String, Row}
use xelma_backend.Schema.Enums.{
  GameMode, RoundStatus, Side, ChainStatus, BetStatus, BetMode, EventStatus, NotificationKind,
}

pub record User : Type 0 where
  pub id : ℕ
  pub wallet_address : ℕ
  pub virtual_balance : ℕ
  pub wins : ℕ
  pub streak : ℕ

-- One element of the JSON in `Round.priceRanges`, or the JSON in `Prediction.priceRange`.
pub record RangeJson : Type 0 where
  pub min : Option ℕ
  pub max : Option ℕ
  pub pool : Option ℕ

-- The JSON of `Round.priceRanges`: an array, or any other value.
pub data RangesJson : Type 0 where
  array : List RangeJson → RangesJson
  other : RangesJson

pub record Round : Type 0 where
  pub id : ℕ
  pub mode : GameMode
  pub status : RoundStatus
  pub start_price : ℕ
  pub end_price : Option ℕ
  pub start_time : ℕ
  pub end_time : ℕ
  pub soroban_round_id : Option ℕ
  pub pool_up : ℕ
  pub pool_down : ℕ
  pub price_ranges : RangesJson
  pub resolved_at : Option ℕ

pub record Prediction : Type 0 where
  pub id : ℕ
  pub user_id : ℕ
  pub round_id : ℕ
  pub side : Option Side
  pub amount : ℕ
  pub price_range : Option RangeJson
  pub won : Option Bool
  pub payout : Option ℕ
  pub chain_status : ChainStatus
  pub tx_hash : Option ℕ
  pub chain_attempt_count : ℕ
  pub chain_failure_reason : Option String
  pub chain_submitted_at : Option ℕ
  pub chain_confirmed_at : Option ℕ
  pub chain_failed_at : Option ℕ
  pub compensated_at : Option ℕ
  pub created_at : ℕ

pub record Bet : Type 0 where
  pub id : ℕ
  pub user_id : ℕ
  pub round_id : Option ℕ
  pub mode : BetMode
  pub side : Option Side
  pub amount : ℕ
  pub predicted_price : Option ℕ
  pub status : BetStatus
  pub tx_hash : Option ℕ
  pub failure_reason : Option String
  pub submitted_at : Option ℕ
  pub confirmed_at : Option ℕ
  pub resolved_at : Option ℕ
  pub failed_at : Option ℕ

pub data Room : Type 0 where
  all_rounds : Room
  of_round of_user : ℕ → Room

-- What an outbox row carries. Titles and messages are functions of these; tracing identifiers
-- (requestId, correlationId) are left out.
pub data Payload : Type 0 where
  notification : (user : ℕ) (kind : NotificationKind) (round : ℕ) (amount : Option ℕ) → Payload
  notification_new :
      (room : Room) (user : ℕ) (kind : NotificationKind) (round : ℕ) (amount : Option ℕ) → Payload
  prediction_placed :
      (room : Room) (round prediction amount : ℕ) (side : Option Side) (range : Option RangeJson)
      → Payload
  round_update : (room : Room) (round : Round) → Payload
  bet_accepted :
      (bet user : ℕ) (round : Option ℕ) (mode : BetMode) (side : Option Side) (amount : ℕ)
      (stub : Bool) (tx_hash : Option ℕ)
      → Payload
  bet_confirmed : (bet user : ℕ) (round : Option ℕ) (mode : BetMode) (tx_hash : ℕ) → Payload
  bet_resolved :
      (bet user : ℕ) (round : Option ℕ) (mode : BetMode) (won : Bool) (payout : ℕ) → Payload
  bet_failed : (bet user : ℕ) (round : Option ℕ) (mode : BetMode) (reason : String) → Payload

pub record OutboxEvent : Type 0 where
  pub id : ℕ
  pub aggregate_id : ℕ
  pub payload : Payload
  pub status : EventStatus
  pub attempts : ℕ
  pub last_error : Option String

-- `next_id` stands for the identifiers that the database makes up.
pub record Db : Type 0 where
  pub users : List User
  pub rounds : List Round
  pub predictions : List Prediction
  pub bets : List Bet
  pub outbox : List OutboxEvent
  pub next_id : ℕ

instance abbrev pub user_row : Row User
user_row = record { key = λ u. u.id }

instance abbrev pub round_row : Row Round
round_row = record { key = λ r. r.id }

instance abbrev pub prediction_row : Row Prediction
prediction_row = record { key = λ p. p.id }

instance abbrev pub bet_row : Row Bet
bet_row = record { key = λ b. b.id }

instance abbrev pub event_row : Row OutboxEvent
event_row = record { key = λ e. e.id }
