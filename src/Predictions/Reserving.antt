-- ===== src/Predictions/Reserving.antt =====
-- Phase 1 of `submitPredictionInternal` of src/services/prediction.service.ts: the reservation.
use xelma_backend.Base.{
  ℕ, ◌+◌, ◌-◌, Bool, ◌&&◌, ◌==◌, leb, Option, none, some, List, [], ◌∷◌, ◌++◌, ok, err, Action,
  pure, throw, gets, or_throw, throw_if, ◌>>=◌, ◌>>◌, transaction, find, find_first, update, not,
  is_some, if◌then◌else◌,
}
use xelma_backend.Decimals.{DecimalApi}
use xelma_backend.Schema.{
  User, user_row, Round, round_row, Prediction, prediction_row, GameMode, RoundStatus, status_eq,
  Side, side_eq, RangeJson, ChainStatus, Payload, Room, Db, Error,
}
use xelma_backend.Bets.{create_event}
use xelma_backend.PriceRange.{
  RoundRange, UserRange, parse_round_price_ranges, validate_user_price_range, find_range_by_bounds,
  update_range_pool, ranges_to_json,
}

pub record PredictionInput : Type 0 where
  pub user_id : ℕ
  pub round_id : ℕ
  pub amount : ℕ
  pub side : Option Side
  pub price_range : Option RangeJson

-- What the transaction returns.
pub record Reservation : Type 0 where
  pub prediction : Prediction
  pub user : User
  pub updated_round : Round

-- `roundId_userId`
abbrev pub is_of : (round_id user_id : ℕ) → Prediction → Bool
is_of round_id user_id p = p.round_id == round_id && p.user_id == user_id

-- The refusals of an earlier prediction, by its chain status. A FAILED one passes.
unfoldable pub check_existing : Option Prediction → Option Error
check_existing none = none
check_existing (some p) = elim p.chain_status [
  | ChainStatus.pending ↦ some (
      Error.business_rule
        "Prediction is currently being processed or reconciled on chain. Please wait.")
  | ChainStatus.submitted ↦ some (
      Error.business_rule
        "Prediction is currently being processed or reconciled on chain. Please wait.")
  | ChainStatus.needs_manual_review ↦ some (
      Error.business_rule
        "Previous prediction attempt requires manual review. Please contact support.")
  | ChainStatus.confirmed ↦ some Error.duplicate_prediction
  | ChainStatus.not_required ↦ some Error.duplicate_prediction
  | ChainStatus.failed ↦ none
]

abbrev no_ranges : Error
no_ranges = Error.plain "Invalid round price ranges: expected RoundPriceRange[]"

abbrev check_bounds : Option (List RoundRange) → UserRange → Option Error
check_bounds none r = some no_ranges
check_bounds (some ranges) r =
    if is_some (find_range_by_bounds ranges r.min r.max)
    then none
    else some (Error.validation "Invalid price range for this round")

abbrev check_range : Option RangeJson → Round → Option Error
check_range none round = some (Error.validation "Price range is required for LEGENDS mode")
check_range (some j) round = elim (validate_user_price_range (some j)) [
  | none ↦ some (Error.validation "Price range must include numeric min and max with min < max")
  | some r ↦ check_bounds (parse_round_price_ranges round.price_ranges) r
]

abbrev check_side : Option Side → Option Error
check_side none = some (Error.validation "Side (UP/DOWN) is required for UP_DOWN mode")
check_side (some s) = none

-- The pick has to fit the mode of the round.
unfoldable pub check_pick : PredictionInput → Round → Option Error
check_pick input round = elim round.mode [
  | GameMode.up_down ↦ check_side input.side
  | GameMode.legends ↦ check_range input.price_range round
]

abbrev pub refuse : Option Error → Action Error Db (Unit {0})
refuse none = pure tt
refuse (some e) = throw e

-- The stake leaves the account under the guard `virtualBalance: { gte: amountNum }`.
abbrev pub charge : ℕ → User → User
charge amount u = record u { virtual_balance = u.virtual_balance - amount }

unfoldable pub take_stake : (user_id amount : ℕ) → Action Error Db User
take_stake user_id amount db = elim (find user_id db.users) [
  | none ↦ (err (Error.not_found "User not found"), db)
  | some u ↦
      if leb amount u.virtual_balance
      then (ok (charge amount u), record db { users = update user_id (charge amount) db.users })
      else (err Error.insufficient_funds, db)
]

abbrev pub target_status : GameMode → ChainStatus
target_status GameMode.legends = ChainStatus.not_required
target_status GameMode.up_down = ChainStatus.pending

-- `{ min: priceRange.min, max: priceRange.max }`
abbrev stored_range : Option RangeJson → Option RangeJson
stored_range none = none
stored_range (some j) = some (record { min = j.min; max = j.max; pool = none })

-- An `undefined` value leaves the column as it is.
abbrev pub or_keep : {A : Type 0} → Option A → Option A → Option A
or_keep none old = old
or_keep (some new) old = some new

-- A FAILED row is used again.
unfoldable pub reuse_row : PredictionInput → ℕ → ChainStatus → Prediction → Prediction
reuse_row input amount status p = record p {
  amount = amount;
  side = or_keep input.side p.side;
  price_range = or_keep (stored_range input.price_range) p.price_range;
  chain_status = status;
  tx_hash = none;
  chain_attempt_count = 0;
  chain_failure_reason = none;
  chain_submitted_at = none;
  chain_confirmed_at = none;
  chain_failed_at = none;
  compensated_at = none;
  won = none;
  payout = none;
}

unfoldable pub new_row : (now : ℕ) → PredictionInput → ℕ → ChainStatus → (id : ℕ) → Prediction
new_row now input amount status id = record {
  id = id;
  user_id = input.user_id;
  round_id = input.round_id;
  side = input.side;
  amount = amount;
  price_range = stored_range input.price_range;
  won = none;
  payout = none;
  chain_status = status;
  tx_hash = none;
  chain_attempt_count = 0;
  chain_failure_reason = none;
  chain_submitted_at = none;
  chain_confirmed_at = none;
  chain_failed_at = none;
  compensated_at = none;
  created_at = now;
}

-- `check_existing` has let through no earlier prediction or a FAILED one.
unfoldable pub write_prediction :
    (now : ℕ) → PredictionInput → ℕ → ChainStatus → Option Prediction → Action Error Db Prediction
write_prediction now input amount status (some p) db = (
  ok (reuse_row input amount status p),
  record db { predictions = update p.id (reuse_row input amount status) db.predictions },
)
write_prediction now input amount status none db = (
  ok (new_row now input amount status db.next_id),
  record db {
    predictions = db.predictions ++ new_row now input amount status db.next_id ∷ [];
    next_id = db.next_id + 1;
  },
)

abbrev pub on_side : Side → Option Side → ℕ → ℕ
on_side side none amount = 0
on_side side (some s) amount = if side_eq s side then amount else 0

unfoldable pub add_to_pools : Option Side → ℕ → Round → Round
add_to_pools side amount r = record r {
  pool_up = r.pool_up + on_side Side.up side amount;
  pool_down = r.pool_down + on_side Side.down side amount;
}

-- The three rows that announce a placed prediction.
unfoldable pub announce_prediction : Prediction → Round → Db → Db
announce_prediction p round db =
    create_event round.id (Payload.round_update Room.all_rounds round) (
      create_event round.id (Payload.round_update (Room.of_round round.id) round) (
        create_event p.id
          (Payload.prediction_placed Room.all_rounds p.round_id p.id p.amount p.side p.price_range)
          db))

abbrev range_pools :
    PredictionInput → Option (List RoundRange) → Option UserRange → Option (List RoundRange)
range_pools input (some ranges) (some r) = some (update_range_pool ranges r.min r.max input.amount)
range_pools input _ _ = none

-- The stake joins its pool; LEGENDS predictions are announced here.
unfoldable pub join_pool : PredictionInput → ℕ → Round → Prediction → Action Error Db Round
join_pool input amount round p db = elim round.mode [
  | GameMode.up_down ↦ (
    ok (add_to_pools input.side amount round),
    record db { rounds = update round.id (add_to_pools input.side amount) db.rounds },
  )
  | GameMode.legends ↦
      elim (range_pools input (parse_round_price_ranges round.price_ranges)
        (validate_user_price_range input.price_range)) [
          | none ↦ (err no_ranges, db)
          | some ranges ↦ (
            ok (record round { price_ranges = ranges_to_json ranges }),
            announce_prediction p (record round { price_ranges = ranges_to_json ranges })
                (record db {
                  rounds =
                      update round.id (λ r. record r { price_ranges = ranges_to_json ranges })
                        db.rounds;
                }),
          )
        ]
]

-- The writes of a reservation that passed the checks.
unfoldable pub write_reservation :
    (now : ℕ) → PredictionInput → ℕ → Round → Option Prediction → Action Error Db Reservation
write_reservation now input amount round existing = do
  user ← take_stake input.user_id amount
  prediction ← write_prediction now input amount (target_status round.mode) existing
  updated_round ← join_pool input amount round prediction
  pure (record { prediction = prediction; user = user; updated_round = updated_round })

module _ (api : DecimalApi) where
  open api use {dec, to_number}

  unfoldable pub reserve_body : (now : ℕ) → PredictionInput → Action Error Db Reservation
  reserve_body now input = do
    round ←
        or_throw (← gets (λ db. find input.round_id db.rounds)) (Error.not_found "Round not found")
    throw_if (not (status_eq round.status RoundStatus.active)) Error.round_not_active
    existing ← gets (λ db. find_first (is_of input.round_id input.user_id) db.predictions)
    refuse (check_existing existing)
    refuse (check_pick input round)
    write_reservation now input (to_number (dec input.amount)) round existing

  unfoldable pub reserve : (now : ℕ) → PredictionInput → Action Error Db Reservation
  reserve now input = transaction (reserve_body now input)
