-- ===== src/Tests/Data.antt =====
-- Two players, their predictions of an UP_DOWN round, and a LEGENDS round.
use xelma_backend.Base.{ℕ, true, false, none, some, List, [], ◌∷◌, ok, err}
use xelma_backend.Schema.{
  User, Round, RoundStatus, GameMode, Prediction, Side, ChainStatus, RangesJson, Bet, BetMode,
  BetStatus, Db,
}
use xelma_backend.Resolution.{Surroundings, alone}
use xelma_backend.Predictions.{PredictionInput, Chain, Config, ChainView}

abbrev pub alice : User
alice = record { id = 1; wallet_address = 11; virtual_balance = 1000; wins = 0; streak = 2 }

abbrev pub bob : User
bob = record { id = 2; wallet_address = 12; virtual_balance = 500; wins = 3; streak = 0 }

abbrev pub ranges : RangesJson
ranges = RangesJson.array (
    record { min = some 0; max = some 10; pool = some 0 }
    ∷ record { min = some 10; max = some 20; pool = some 30 }
    ∷ [])

abbrev pub a_round : (id : ℕ) → GameMode → RoundStatus → Round
a_round id mode status = record {
  id = id;
  mode = mode;
  status = status;
  start_price = 10;
  end_price = none;
  start_time = 0;
  end_time = 60;
  soroban_round_id = some 77;
  pool_up = 100;
  pool_down = 50;
  price_ranges = ranges;
  resolved_at = none;
}

abbrev pub a_prediction : (id user_id amount : ℕ) → Side → ChainStatus → Prediction
a_prediction id user_id amount side status = record {
  id = id;
  user_id = user_id;
  round_id = 5;
  side = some side;
  amount = amount;
  price_range = none;
  won = none;
  payout = none;
  chain_status = status;
  tx_hash = none;
  chain_attempt_count = 0;
  chain_failure_reason = none;
  chain_submitted_at = none;
  chain_confirmed_at = none;
  chain_failed_at = none;
  compensated_at = none;
  created_at = 1;
}

abbrev pub a_bet : BetStatus → Bet
a_bet status = record {
  id = 31;
  user_id = 1;
  round_id = some 5;
  mode = BetMode.up_down;
  side = some Side.up;
  amount = 100;
  predicted_price = none;
  status = status;
  tx_hash = none;
  failure_reason = none;
  submitted_at = none;
  confirmed_at = none;
  resolved_at = none;
  failed_at = none;
}

abbrev pub a_db : RoundStatus → List Prediction → Db
a_db status predictions = record {
  users = alice ∷ bob ∷ [];
  rounds = a_round 5 GameMode.up_down status ∷ a_round 6 GameMode.legends status ∷ [];
  predictions = predictions;
  bets = a_bet BetStatus.confirmed ∷ [];
  outbox = [];
  next_id = 40;
}

abbrev pub both : List Prediction
both =
    a_prediction 21 1 100 Side.up ChainStatus.confirmed
    ∷ a_prediction 22 2 50 Side.down ChainStatus.confirmed
    ∷ []

abbrev pub calm : Surroundings
calm = record {
  now = 99;
  oracle_running = true;
  price_stale = false;
  fail_closed = true;
  chain_failure = none;
  before_tx = alone;
  during_tx = alone;
}

abbrev pub failing : Surroundings
failing = record (calm) { chain_failure = some (record { message = "no"; is_timeout = false }) }

abbrev pub an_input : PredictionInput
an_input = record {
  user_id = 1;
  round_id = 5;
  amount = 70;
  side = some Side.up;
  price_range = none;
}

abbrev pub refusing_chain : Chain
refusing_chain = record {
  now = 7;
  reply = err (record { message = "no"; is_timeout = false });
  finalize_error = none;
  meanwhile = λ db. db;
}

abbrev pub a_config : Config
a_config = record { min_age = 60; batch_size = 50; max_attempts = 5 }

abbrev pub a_view : ChainView
a_view = record {
  status_of = λ h. err (record { message = "down"; is_timeout = true });
  position_of = λ r a. ok (some 3);
  no_hash = 0;
}
