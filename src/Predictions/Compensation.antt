-- ===== src/Predictions/Compensation.antt =====
-- A stake is paid back once: `compensatePrediction` of src/services/prediction.service.ts.
use xelma_backend.Base.{
  true, update, ℕ, ◌≡◌, inl, inr, refl, ap, false, some, Result, ok, err, find, find-update_self,
  arith,
}
use xelma_backend.Schema.{User, Round, round_row, Prediction, prediction_row, user_row, Db, Error}
use xelma_backend.Predictions.Finalizing.{
  pay, pay_back, write_prediction_row, leave_round, can_compensate, compensate_body,
  compensate_prediction, compensated_row,
}
use xelma_backend.Predictions.Funds.{compensate_body_lem}

-- A transaction leaves what its body leaves, or nothing.
left_by :
    {A : Type 0} (p : Result Error A × Db) (s t : Db)
    → (p.1 ≡ t)
    → (s ≡ t)
    → (elim p.0 as (λ x. Result Error A × Db) [ ok a ↦ (ok a, p.1) | err e ↦ (err e, s) ]).1 ≡ t
left_by (ok a, s') s t e same = e
left_by (err x, s') s t e same = same

kept :
    {A : Type 0} (p : Result Error A × Db) (s : Db) (a : A) (t : Db)
    → p ≡ (ok a, t)
    → (elim p.0 as (λ x. Result Error A × Db) [ ok a ↦ (ok a, p.1) | err e ↦ (err e, s) ]).1 ≡ t
kept (ok b, s') s a t e = ap (λ (r : Result Error _ × Db). r.1) e
kept (err x, s') s a t e = cc

-- A row that cannot be compensated is left alone.
pub compensate_prediction_idle :
    (now id : ℕ) (db : Db) (p : Prediction)
    → find id db.predictions ≡ some p
    → can_compensate p ≡ false
    → (compensate_prediction now id db).1 ≡ db
unfolding compensate_prediction
compensate_prediction_idle now id db p e cannot = elim (compensate_body_lem id db) [
  | inl idle ↦ left_by (compensate_body now id db) db db (idle now) refl
  | inr (q, round, u, found, account, can, done) ↦ absurd (ground arith)
]

-- Compensating a prediction again, at any time, changes nothing: the stake is paid back once.
pub compensate_prediction_once :
    (now now' id : ℕ) (db : Db)
    → (compensate_prediction now' id (compensate_prediction now id db).1).1
      ≡ (compensate_prediction now id db).1
unfolding compensate_prediction
compensate_prediction_once now now' id db = elim (compensate_body_lem id db) [
  | inl idle ↦
      let first : (compensate_prediction now id db).1 ≡ db =
        left_by (compensate_body now id db) db db (idle now) refl in
      rw first (left_by (compensate_body now' id db) db db (idle now') refl)
  | inr (p, round, u, found, account, can, done) ↦
      let first = kept (compensate_body now id db) db tt _ (done now) in
      rw first (
        compensate_prediction_idle now' id _ (compensated_row now p)
          (find-update_self id (compensated_row now) p db.predictions (λ x. refl) found) refl)
]

-- A compensation of a row that can be compensated, as one write.
pub compensate_prediction_met :
    (now id : ℕ) (db : Db) (p : Prediction) (round : Round) (u : User)
    → find id db.predictions ≡ some p
    → find p.round_id db.rounds ≡ some round
    → find p.user_id db.users ≡ some u
    → can_compensate p ≡ true
    → (compensate_prediction now id db).1 ≡ record db {
      users = update p.user_id (pay p.amount) db.users;
      rounds = leave_round round.mode p db.rounds;
      predictions = update id (compensated_row now) db.predictions;
    }
unfolding compensate_prediction compensate_body pay_back write_prediction_row
compensate_prediction_met now id db p round u found on account can =
    kept (compensate_body now id db) db tt _ (ground arith)
