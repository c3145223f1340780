-- ===== src/Bets/Placing.antt =====
-- `recordUpDownBet` and `recordPrecisionBet` of src/services/bet.service.ts. The reply of the chain
-- client (`sorobanService.placeBet`, `placePrecisionBet`) is an argument.
use xelma_backend.Base.{
  ℕ, ◌+◌, Bool, ◌&&◌, ◌==◌, ltb, Option, none, some, List, [], ◌∷◌, ◌++◌, String, Result, ok, err,
  Action, pure, gets, modify, or_throw, throw_if, ◌>>=◌, ◌>>◌, transaction, find, find_first,
  update, not, if◌then◌else◌,
}
use xelma_backend.Schema.{
  user_row, Round, round_row, Bet, bet_row, GameMode, mode_eq, RoundStatus, status_eq, Side,
  BetMode, BetStatus, Payload, Db, Error, ChainError,
}
use xelma_backend.Bets.Events.{create_event}

pub record BetInput : Type 0 where
  pub address : ℕ
  pub amount : ℕ
  pub side : Option Side
  pub predicted_price : Option ℕ
  pub round_id : Option ℕ

-- What `placeBet` returns.
pub record Placed : Type 0 where
  pub state : String
  pub tx_hash : Option ℕ

pub record BetResult : Type 0 where
  pub state : String
  pub tx_hash : Option ℕ
  pub bet_id : ℕ
  pub status : BetStatus

-- The later of two rounds by start time, the earlier row on a tie.
abbrev later : Round → Option Round → Option Round
later r none = some r
later r (some s) = if ltb r.start_time s.start_time then some s else some r

-- The newest ACTIVE round for the mode.
unfoldable pub newest_active : GameMode → List Round → Option Round
newest_active mode [] = none
newest_active mode (r ∷ rs) =
    let rest = newest_active mode rs in
    if mode_eq r.mode mode && status_eq r.status RoundStatus.active then later r rest else rest

abbrev id_of : Option Round → Option ℕ
id_of none = none
id_of (some r) = some r.id

unfoldable pub resolve_round_id : GameMode → Option ℕ → Action Error Db (Option ℕ)
unfolding newest_active
resolve_round_id mode none = gets (λ db. id_of (newest_active mode db.rounds))
resolve_round_id mode (some requested) = do
  round ← or_throw (← gets (λ db. find requested db.rounds)) (Error.not_found "Round not found")
  throw_if (not (mode_eq round.mode mode)) (Error.validation "Round does not accept these bets")
  pure (some round.id)

-- A new account holds 1000 XLM.
abbrev pub opening_balance : ℕ
opening_balance = 100_000_000_000

unfoldable pub get_or_create_user_id : (address : ℕ) → Action Error Db ℕ
get_or_create_user_id address db = elim (find_first (λ u. u.wallet_address == address) db.users) [
  | some u ↦ (ok u.id, db)
  | none ↦ (
    ok db.next_id,
    record db {
      users =
          db.users
          ++ record {
            id = db.next_id;
            wallet_address = address;
            virtual_balance = opening_balance;
            wins = 0;
            streak = 0;
          }
            ∷ [];
      next_id = db.next_id + 1;
    },
  )
]

abbrev bet_mode : GameMode → BetMode
bet_mode GameMode.up_down = BetMode.up_down
bet_mode GameMode.legends = BetMode.precision

-- An UP_DOWN bet has a side and no price, a precision bet a price and no side.
abbrev bet_side : GameMode → Option Side → Option Side
bet_side GameMode.up_down s = s
bet_side GameMode.legends s = none

abbrev bet_price : GameMode → Option ℕ → Option ℕ
bet_price GameMode.up_down p = none
bet_price GameMode.legends p = p

unfoldable pub new_bet :
    (mode : GameMode) (input : BetInput) (user_id : ℕ) (round_id : Option ℕ) (id : ℕ) → Bet
new_bet mode input user_id round_id id = record {
  id = id;
  user_id = user_id;
  round_id = round_id;
  mode = bet_mode mode;
  side = bet_side mode input.side;
  amount = input.amount;
  predicted_price = bet_price mode input.predicted_price;
  status = BetStatus.accepted;
  tx_hash = none;
  failure_reason = none;
  submitted_at = none;
  confirmed_at = none;
  resolved_at = none;
  failed_at = none;
}

unfoldable pub create_bet :
    (mode : GameMode) (input : BetInput) (user_id : ℕ) (round_id : Option ℕ) → Action Error Db Bet
unfolding new_bet
create_bet mode input user_id round_id db =
    let bet = new_bet mode input user_id round_id db.next_id in
    (ok bet, record db { bets = db.bets ++ bet ∷ []; next_id = db.next_id + 1 })

-- What the chain call left behind: the status of the bet, the transaction and the reported state.
pub record Submission : Type 0 where
  pub status : BetStatus
  pub tx_hash : Option ℕ
  pub state : String

unfoldable pub submitted_row : (now : ℕ) → Option ℕ → Bet → Bet
submitted_row now tx_hash b = record b {
  status = BetStatus.submitted;
  tx_hash = tx_hash;
  submitted_at = some now;
}

unfoldable pub failed_row : (now : ℕ) → String → Bet → Bet
failed_row now reason b = record b {
  status = BetStatus.failed;
  failure_reason = some reason;
  failed_at = some now;
}

-- The chain call of a bet that is not in stub mode, with its `catch`.
unfoldable pub submit_bet :
    (now : ℕ) (chain : Result ChainError Placed) (bet : Bet) → Action Error Db Submission
unfolding submitted_row failed_row
submit_bet now (ok placed) bet db = (
  ok (record { status = BetStatus.submitted; tx_hash = placed.tx_hash; state = placed.state }),
  record db { bets = update bet.id (submitted_row now placed.tx_hash) db.bets },
)
submit_bet now (err e) bet db = (
  err (Error.chain e),
  create_event bet.id (Payload.bet_failed bet.id bet.user_id bet.round_id bet.mode e.message)
      (record db { bets = update bet.id (failed_row now e.message) db.bets }),
)

abbrev stub_submission : Submission
stub_submission = record { status = BetStatus.accepted; tx_hash = none; state = "stub" }

-- The transaction once the round and the account are known: the row, the chain call, the event.
unfoldable pub place_bet :
    (now : ℕ) (stub : Bool) (mode : GameMode) (chain : Result ChainError Placed) (input : BetInput)
    (user_id : ℕ) (round_id : Option ℕ)
    → Action Error Db BetResult
unfolding create_bet submit_bet create_event
place_bet now stub mode chain input user_id round_id = do
  bet ← create_bet mode input user_id round_id
  sent ← if stub then pure stub_submission else submit_bet now chain bet
  modify (
      create_event bet.id (
        Payload.bet_accepted bet.id bet.user_id bet.round_id bet.mode bet.side input.amount stub
          sent.tx_hash))
  pure
      (record { state = sent.state; tx_hash = sent.tx_hash; bet_id = bet.id; status = sent.status })

-- The body of the transaction.
unfoldable pub record_bet_body :
    (now : ℕ) (stub : Bool) (mode : GameMode) (chain : Result ChainError Placed) (input : BetInput)
    → Action Error Db BetResult
unfolding resolve_round_id get_or_create_user_id place_bet
record_bet_body now stub mode chain input = do
  round_id ← resolve_round_id mode input.round_id
  user_id ← get_or_create_user_id input.address
  place_bet now stub mode chain input user_id round_id

-- `recordUpDownBet` (`up_down`) and `recordPrecisionBet` (`legends`).
unfoldable pub record_bet :
    (now : ℕ) (stub : Bool) (mode : GameMode) (chain : Result ChainError Placed) (input : BetInput)
    → Action Error Db BetResult
unfolding record_bet_body
record_bet now stub mode chain input = transaction (record_bet_body now stub mode chain input)
