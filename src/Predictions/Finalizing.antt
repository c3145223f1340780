-- ===== src/Predictions/Finalizing.antt =====
-- Phases 2 and 3 of `submitPredictionInternal`, compensation and review, and the batch, of
-- src/services/prediction.service.ts. The replies of the chain client and what other connections
-- commit while it is asked are arguments.
use xelma_backend.Base.{
  ℕ, ◌+◌, ◌-◌, Bool, false, ◌||◌, Option, none, some, List, [], ◌∷◌, String, Result, ok, err,
  Action, pure, throw, modify, ◌>>=◌, ◌>>◌, transaction, find, update, is_some, if◌then◌else◌,
}
use xelma_backend.Decimals.{DecimalApi}
use xelma_backend.Schema.{
  User, user_row, Round, round_row, Prediction, prediction_row, GameMode, Side, ChainStatus,
  chain_eq, Db, Error, ChainError,
}
use xelma_backend.Predictions.Reserving.{
  PredictionInput, Reservation, on_side, or_keep, announce_prediction, reserve,
}

-- `tx.prediction.update({ where: { id }, data })`
unfoldable pub write_prediction_row : ℕ → (Prediction → Prediction) → Action Error Db (Unit {0})
write_prediction_row id f db =
    if is_some (find id db.predictions)
    then (ok tt, record db { predictions = update id f db.predictions })
    else (err Error.record_not_found, db)

-- `tx.user.update({ where: { id }, data: { virtualBalance: { increment } } })`
abbrev pub pay : ℕ → User → User
pay amount u = record u { virtual_balance = u.virtual_balance + amount }

unfoldable pub pay_back : (user_id amount : ℕ) → Action Error Db (Unit {0})
pay_back user_id amount db =
    if is_some (find user_id db.users)
    then (ok tt, record db { users = update user_id (pay amount) db.users })
    else (err Error.record_not_found, db)

abbrev pub confirmed_row : (now : ℕ) → Option ℕ → Prediction → Prediction
confirmed_row now tx_hash p = record p {
  chain_status = ChainStatus.confirmed;
  tx_hash = or_keep tx_hash p.tx_hash;
  chain_confirmed_at = some now;
  chain_attempt_count = 1;
}

abbrev is_waiting : Option Prediction → Bool
is_waiting none = false
is_waiting (some p) = chain_eq p.chain_status ChainStatus.pending

-- `finalizeChainSuccess`, whose transaction goes through; `prediction` and `round` are the rows
-- that the caller holds.
unfoldable pub finalize_chain_success :
    (now id : ℕ) (prediction : Prediction) (round : Round) (tx_hash : Option ℕ) → Db → Db
finalize_chain_success now id prediction round tx_hash db =
    if is_waiting (find id db.predictions)
    then announce_prediction prediction round
        (record db { predictions = update id (confirmed_row now tx_hash) db.predictions })
    else db

-- The decrements of the pools. Where a pool holds less than the stake, the column goes below zero;
-- here it stops at 0.
unfoldable pub leave_pools : Option Side → ℕ → Round → Round
leave_pools side amount r = record r {
  pool_up = r.pool_up - on_side Side.up side amount;
  pool_down = r.pool_down - on_side Side.down side amount;
}

abbrev pub leave_round : GameMode → Prediction → List Round → List Round
leave_round GameMode.up_down p rounds = update p.round_id (leave_pools p.side p.amount) rounds
leave_round GameMode.legends p rounds = rounds

abbrev pub compensated_row : (now : ℕ) → Prediction → Prediction
compensated_row now p = record p {
  compensated_at = some now;
  chain_status = ChainStatus.failed;
  chain_failure_reason = some "Chain transaction failed";
}

-- The guard of `compensatePrediction`.
abbrev pub can_compensate : Prediction → Bool
can_compensate p = elim p.compensated_at [
  | some t ↦ false
  | none ↦
      chain_eq p.chain_status ChainStatus.pending
      || chain_eq p.chain_status ChainStatus.failed
      || chain_eq p.chain_status ChainStatus.submitted
]

abbrev compensate_found : (now id : ℕ) → Prediction → Round → Action Error Db (Unit {0})
compensate_found now id p round =
    if can_compensate p
    then (pay_back p.user_id p.amount
        >> (modify (λ db. record db { rounds = leave_round round.mode p db.rounds })
            >> write_prediction_row id (compensated_row now)))
    else pure tt

-- The body of the transaction. A row without its round breaks the foreign key that the query
-- follows.
unfoldable pub compensate_body : (now id : ℕ) → Action Error Db (Unit {0})
unfolding pay_back write_prediction_row
compensate_body now id db = elim (find id db.predictions) [
  | none ↦ (ok tt, db)
  | some p ↦ elim (find p.round_id db.rounds) [
    | none ↦ (err (Error.plain "Inconsistent query result"), db)
    | some round ↦ compensate_found now id p round db
  ]
]

unfoldable pub compensate_prediction : (now id : ℕ) → Action Error Db (Unit {0})
compensate_prediction now id = transaction (compensate_body now id)

-- `handleChainFailure`: a timeout is left to reconciliation.
unfoldable pub handle_chain_failure : (now id : ℕ) → ChainError → Action Error Db (Unit {0})
handle_chain_failure now id e =
    if e.is_timeout
    then write_prediction_row id (λ p. record p { chain_status = ChainStatus.submitted })
    else compensate_prediction now id

-- `flagForManualReview`
unfoldable pub flag_for_manual_review : (id : ℕ) (reason : String) → Action Error Db (Unit {0})
flag_for_manual_review id reason = write_prediction_row id (λ p. record p {
  chain_status = ChainStatus.needs_manual_review;
  chain_failure_reason = some reason;
})

-- What a submission meets: the reply of `sorobanService.placeBet`, an error that
-- `finalizeChainSuccess` ends in after its retries, and what others commit in the meantime.
pub record Chain : Type 0 where
  pub now : ℕ
  pub reply : Result ChainError (Option ℕ)
  pub finalize_error : Option ChainError
  pub meanwhile : Db → Db

abbrev pub fail_with : (now id : ℕ) → ChainError → Action Error Db (Unit {0})
fail_with now id e = handle_chain_failure now id e >> throw (Error.chain e)

abbrev pub finish :
    Chain
    → Reservation
    → Result ChainError (Option ℕ)
    → Option ChainError
    → Action Error Db (Unit {0})
finish chain r (ok tx_hash) none =
    modify (finalize_chain_success chain.now r.prediction.id r.prediction r.updated_round tx_hash)
finish chain r (ok tx_hash) (some e) = fail_with chain.now r.prediction.id e
finish chain r (err e) finalized = fail_with chain.now r.prediction.id e

abbrev pub read_back : ℕ → Action Error Db Prediction
read_back id db = elim (find id db.predictions) [
  | none ↦ (err Error.record_not_found, db)
  | some p ↦ (ok p, db)
]

-- Phases 2 and 3, on the rows that were reserved.
unfoldable pub chain_phase : Chain → Reservation → Action Error Db Prediction
chain_phase chain r = elim r.updated_round.mode [
  | GameMode.legends ↦ pure r.prediction
  | GameMode.up_down ↦
      modify chain.meanwhile
      >> (finish chain r chain.reply chain.finalize_error >> read_back r.prediction.id)
]

module _ (api : DecimalApi) where
  unfoldable pub submit_prediction : PredictionInput → Chain → Action Error Db Prediction
  submit_prediction input chain = reserve api chain.now input >>= chain_phase chain

  -- `submitBatchPredictions`: each item by itself, its error kept as a result.
  unfoldable pub submit_batch :
      List (PredictionInput × Chain) → Db → List (Result Error Prediction) × Db
  submit_batch [] db = ([], db)
  submit_batch ((input, chain) ∷ items) db =
      let (r, db₁) = submit_prediction input chain db in
      let (rs, db₂) = submit_batch items db₁ in (r ∷ rs, db₂)
