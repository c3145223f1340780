-- ===== src/Predictions/Booking.antt =====
-- A reservation of src/services/prediction.service.ts: the account, the other accounts and the row.
use xelma_backend.Base.{
  ℕ, ◌+◌, ◌≡◌, ◌==◌, refl, none, some, Result, ok, err, find, find-update, arith, if◌then◌else◌,
}
use xelma_backend.Decimals.{DecimalApi}
use xelma_backend.Schema.{
  User, user_row, Round, round_row, RoundStatus, Prediction, prediction_row, Db, Error,
}
use xelma_backend.Predictions.Reserving.{
  PredictionInput, Reservation, charge, target_status, reserve,
}
use xelma_backend.Predictions.Funds.{IsInOrder}
use xelma_backend.Predictions.Found.{amount_of, earlier, Reserved, reserve-Reserved}
use xelma_backend.Predictions.Picks.{IsFree, Picked, free, row-HasInput, row_stored, picked}

pub record Booked (input : PredictionInput) (amount : ℕ) (db db' : Db) (u v : User)
    (row : Prediction) : Type 0 where
  pub account : find input.user_id db.users ≡ some u
  pub is_charged : v.virtual_balance + amount ≡ u.virtual_balance
  pub accounts :
      (k : ℕ) → find k db'.users ≡ (if k == input.user_id then some v else find k db.users)
  pub is_stored : find row.id db'.predictions ≡ some row
  pub of_user : row.user_id ≡ input.user_id
  pub of_round : row.round_id ≡ input.round_id
  pub holds : row.amount ≡ amount
  pub not_paid_back : row.compensated_at ≡ none
  pub not_settled : row.won ≡ none

module _ (api : DecimalApi) (input : PredictionInput) (db : Db) where
  -- A reservation, by how it ends.
  abbrev pub Books : Result Error Reservation × Db → Type 0
  Books (ok r, db') =
      (round : Round) × (find input.round_id db.rounds ≡ some round)
      × (round.status ≡ RoundStatus.active)
      × IsFree (earlier api input db)
      × Picked round.mode input round r.prediction
      × (u : User) × (v : User) × Booked input (amount_of api input) db db' u v r.prediction
  Books (err e, db') = db' ≡ db

  -- In a database whose predictions are in order: a reservation that is made found an ACTIVE round, no
  -- earlier prediction of this user in it but a FAILED one, and a pick that fits the mode of the
  -- round, a side or the bounds of one of its ranges; the account has the amount less than before,
  -- no other account has changed, and the row that is returned is stored, with that owner, round,
  -- amount and pick, as PENDING for UP_DOWN and NOT_REQUIRED for LEGENDS, and not paid back. A
  -- reservation that is refused changes nothing.
  pub reserve-Books : (now : ℕ) → IsInOrder db → Books (reserve api now input db)
  unfolding Reserved
  reserve-Books now order = go (reserve api now input db) (reserve-Reserved api now input db)
    where
      go : (p : Result Error Reservation × Db) → Reserved api now input db p → Books p
      go (err e, db') same = same
      go (ok r, db')
            (round, there, active, live, fits, (u, account, enough, users, pools, written)) =
          let amount = amount_of api input in
          let has = row-HasInput now input amount round.mode _ r.prediction db db' refl written in
          (
            round,
            there,
            active,
            free (earlier api input db) live,
            picked input amount round r.prediction round.mode refl fits has,
            u,
            charge amount u,
            record {
              account = account;
              is_charged = omega (arith, enough);
              accounts = λ k. rw users (
                  ground (arith, find-update k input.user_id (charge amount) db.users (λ c. refl)));
              is_stored =
                  row_stored now input amount (target_status round.mode) _ r.prediction db db' order
                    refl written;
              of_user = has.1;
              of_round = has.2;
              holds = has.3;
              not_paid_back = has.4;
              not_settled = has.5;
            },
          )
