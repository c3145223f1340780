-- ===== src/Predictions/Found.antt =====
-- What a reservation of src/services/prediction.service.ts that is made has found and written.
use xelma_backend.Base.{
  ℕ, ◌≡◌, inl, inr, refl, true, Option, none, some, Option-cases, Result, ok, err, find, find_first,
  arith, Bool-cases, after_transaction, ◌>>◌,
}
use xelma_backend.Schema.{
  user_row, Round, round_row, RoundStatus, status_eq, Prediction, prediction_row, Db, Error,
}
use xelma_backend.Decimals.{DecimalApi}
use xelma_backend.Predictions.Reserving.{
  PredictionInput, Reservation, is_of, check_existing, check_pick, write_reservation, reserve_body,
  reserve, refuse,
}
use xelma_backend.Predictions.Charging.{Charged, ChargedIfOk, write_reservation-ChargedIfOk}

module _ (api : DecimalApi) where
  abbrev pub amount_of : PredictionInput → ℕ
  amount_of input = api.to_number (api.dec input.amount)

  abbrev pub earlier : PredictionInput → Db → Option Prediction
  earlier input db = find_first (is_of input.round_id input.user_id) db.predictions

  -- What a reservation has found and written; one that is refused has written nothing.
  unfoldable pub Reserved :
      (now : ℕ) (input : PredictionInput) (db : Db) → Result Error Reservation × Db → Type 0
  Reserved now input db (ok r, db') =
      (round : Round) × (find input.round_id db.rounds ≡ some round)
      × (round.status ≡ RoundStatus.active)
      × (check_existing (earlier input db) ≡ none)
      × (check_pick input round ≡ none)
      × Charged now input (amount_of input) round (earlier input db) r.prediction db db'
  Reserved now input db (err e, db') = db' ≡ db

  ReservedIfOk :
      (now : ℕ) (input : PredictionInput) (db : Db) → Result Error Reservation × Db → Type 0
  unfolding Reserved
  ReservedIfOk now input db (ok r, db') = Reserved now input db (ok r, db')
  ReservedIfOk now input db (err e, db') = Unit

  reserve_body-ReservedIfOk :
      (now : ℕ) (input : PredictionInput) (db : Db)
      → ReservedIfOk now input db (reserve_body api now input db)
  unfolding reserve_body Reserved ReservedIfOk
  reserve_body-ReservedIfOk now input db = elim (Option-cases (find input.round_id db.rounds)) [
    | inl gone ↦ rw gone tt
    | inr (round, e) ↦ rw e (elim (Bool-cases (status_eq round.status RoundStatus.active)) [
      | inl is ↦ rw is (
          go round e (is_active round is) (check_existing (earlier input db))
            (check_pick input round) refl refl)
      | inr other ↦ rw other tt
    ])
  ]
    where
      is_active :
          (round : Round)
          → status_eq round.status RoundStatus.active ≡ true
          → round.status ≡ RoundStatus.active
      is_active round h = ground arith

      go :
          (round : Round)
          → find input.round_id db.rounds ≡ some round
          → round.status ≡ RoundStatus.active
          → (a b : Option Error) → check_existing (earlier input db) ≡ a
          → check_pick input round ≡ b
          → ReservedIfOk now input db (
              (refuse a
                  >> (refuse b
                      >> write_reservation now input (amount_of input) round (earlier input db)))
                db)
      go round e active (some x) b ea eb = tt
      go round e active none (some x) ea eb = tt
      go round e active none none ea eb =
          lift (write_reservation now input (amount_of input) round (earlier input db) db)
            (write_reservation-ChargedIfOk now input (amount_of input) round (earlier input db) db)
        where
          lift :
              (p : Result Error Reservation × Db)
              → ChargedIfOk now input (amount_of input) round (earlier input db) db p
              → ReservedIfOk now input db p
          lift (ok r, db') c = (round, e, active, ea, eb, c)
          lift (err x, db') c = tt

  -- A reservation that is made found an ACTIVE round, no live prediction of this user in it, a pick
  -- that fits its mode and an account that holds the amount; the account is charged that amount and
  -- the row is written, new or over the FAILED one. A reservation that is refused changes nothing.
  pub reserve-Reserved :
      (now : ℕ) (input : PredictionInput) (db : Db)
      → Reserved now input db (reserve api now input db)
  unfolding reserve Reserved ReservedIfOk
  reserve-Reserved now input db =
      after_transaction (Reserved now input db) (reserve_body api now input) db
        (λ r db' e. rw e at (reserve_body-ReservedIfOk now input db)) (λ x db' e. refl)
