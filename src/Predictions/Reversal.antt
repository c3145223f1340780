-- ===== src/Predictions/Reversal.antt =====
-- A reservation followed by its compensation: src/services/prediction.service.ts.
use mathlib.Core.Path.{subst}
use xelma_backend.Base.{
  ℕ, ◌≤◌, ◌≡◌, ◌==◌, inl, inr, refl, sym, ◌∙◌, Bool-cases, Option, none, some, Option-cases, List,
  ok, find, update, find-update, find-update_self, key-find, arith,
}
use xelma_backend.Decimals.{DecimalApi}
use xelma_backend.Schema.{
  User, user_row, Round, round_row, GameMode, Side, Prediction, prediction_row, ChainStatus, Db,
}
use xelma_backend.Predictions.Reserving.{
  PredictionInput, Reservation, add_to_pools, charge, reserve,
}
use xelma_backend.Predictions.Finalizing.{compensate_prediction, compensated_row, leave_pools, pay}
use xelma_backend.Predictions.Funds.{IsInOrder}
use xelma_backend.Predictions.Charging.{PoolsJoined}
use xelma_backend.Predictions.Found.{amount_of, Reserved, reserve-Reserved}
use xelma_backend.Predictions.Picks.{Picked}
use xelma_backend.Predictions.Booking.{Books, reserve-Books}
use xelma_backend.Predictions.Compensation.{compensate_prediction_met}

-- A stake that is taken and paid back.
find-paid_back :
    (k id amount : ℕ) (u : User) (us : List User)
    → find id us ≡ some u
    → amount ≤ u.virtual_balance
    → find k (update id (pay amount) (update id (charge amount) us)) ≡ find k us
find-paid_back k id amount u us there enough =
    let outer = find-update k id (pay amount) (update id (charge amount) us) (λ x. refl) in
    let inner = find-update k id (charge amount) us (λ x. refl) in
    elim (Bool-cases (k == id)) [
      | inl same ↦ ground (arith, outer, inner)
      | inr other ↦ ground (arith, outer, inner)
    ]

-- A stake that joins the pools and leaves them.
find-left :
    (k id amount : ℕ) (side : Option Side) (rs : List Round)
    → find k (update id (leave_pools side amount) (update id (add_to_pools side amount) rs))
      ≡ find k rs
unfolding leave_pools add_to_pools
find-left k id amount side rs =
    let outer =
      find-update k id (leave_pools side amount) (update id (add_to_pools side amount) rs)
        (λ x. refl) in
    let inner = find-update k id (add_to_pools side amount) rs (λ x. refl) in
    elim (Option-cases (find k rs)) [
      | inl gone ↦ ground (arith, outer, inner)
      | inr (r, there) ↦ elim (Bool-cases (k == id)) [
        | inl same ↦ ground (arith, outer, inner)
        | inr other ↦ ground (arith, outer, inner)
      ]
    ]

-- The accounts, the rounds and the row after a compensation, against the state before the reservation.
abbrev pub IsReversed : (now k : ℕ) (row : Prediction) (before after : Db) → Type 0
IsReversed now k row before after =
    (find k after.users ≡ find k before.users)
    × (find k after.rounds ≡ find k before.rounds)
    × (p : Prediction) × (find row.id after.predictions ≡ some p)
    × (p.chain_status ≡ ChainStatus.failed)
    × (p.compensated_at ≡ some now)
    × (p.amount ≡ row.amount)

reversed :
    (now k amount : ℕ) (input : PredictionInput) (row : Prediction) (round : Round) (u : User)
    (db db' : Db)
    → find input.user_id db.users ≡ some u
    → amount ≤ u.virtual_balance
    → find input.round_id db.rounds ≡ some round
    → round.mode ≡ GameMode.up_down
    → db'.users ≡ update input.user_id (charge amount) db.users
    → db'.rounds ≡ update input.round_id (add_to_pools input.side amount) db.rounds
    → find row.id db'.predictions ≡ some row
    → row.user_id ≡ input.user_id
    → row.round_id ≡ input.round_id
    → row.amount ≡ amount
    → row.side ≡ input.side
    → row.chain_status ≡ ChainStatus.pending
    → row.compensated_at ≡ none
    → IsReversed now k row db (compensate_prediction now row.id db').1
unfolding add_to_pools
reversed now k amount input row round u db db' account enough on mode users rounds stored user_id
      round_id holds side status unpaid =
    let joined : find row.round_id db'.rounds ≡ some (add_to_pools input.side amount round) =
      rw (rounds, round_id)
        (find-update_self input.round_id (add_to_pools input.side amount) round db.rounds
          (λ x. refl) on) in
    let charged : find row.user_id db'.users ≡ some (charge amount u) =
      rw (users, user_id)
        (find-update_self input.user_id (charge amount) u db.users (λ x. refl) account) in
    let met =
      compensate_prediction_met now row.id db' row (add_to_pools input.side amount round)
        (charge amount u) stored joined charged (ground arith) in
    rw met (
      rw (user_id, holds, users) (find-paid_back k input.user_id amount u db.users account enough),
      rw mode (
          rw (round_id, holds, side, rounds)
            (find-left k input.round_id amount input.side db.rounds)),
      compensated_row now row,
      find-update_self row.id (compensated_row now) row db'.predictions (λ x. refl) stored,
      refl,
      refl,
      refl,
    )

module _ (api : DecimalApi) (now later k : ℕ) (input : PredictionInput) (db db' : Db)
    (r : Reservation) (round : Round) where
  -- If, in a database whose predictions are in order, a reservation in an UP_DOWN round is made and its
  -- row is then compensated, then every account and every round, its pools included, are as they were
  -- before the reservation, and the row is FAILED and marked as paid back.
  pub reserve-compensate_prediction :
      IsInOrder db
      → find input.round_id db.rounds ≡ some round
      → round.mode ≡ GameMode.up_down
      → reserve api now input db ≡ (ok r, db')
      → IsReversed later k r.prediction db (compensate_prediction later r.prediction.id db').1
  unfolding Reserved
  reserve-compensate_prediction order on mode done =
      let (a, on_a, active, live, fits, (u, account, enough, users, pools, written)) =
        subst (Reserved api now input db) done (reserve-Reserved api now input db) in
      let (b, on_b, is_open, free, picked, v, w, booked) =
        subst (Books api input db) done (reserve-Books api input db now order) in
      let mode_a : a.mode ≡ GameMode.up_down = cc in
      let mode_b : b.mode ≡ GameMode.up_down = cc in
      let (status, s, given, side) = subst (λ m. Picked m input b r.prediction) mode_b picked in
      let joins = subst (λ m. PoolsJoined m input (amount_of api input) a db db') mode_a pools in
      let id_a : a.id ≡ input.round_id = key-find input.round_id a db.rounds on_a in
      reversed later k (amount_of api input) input r.prediction round u db db' account enough on
        mode users (rw id_a at joins) booked.is_stored booked.of_user booked.of_round booked.holds
        (side ∙ sym given) status booked.not_paid_back
