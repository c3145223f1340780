-- ===== src/Predictions/Funds.antt =====
-- The money of a user is in the account or in a prediction: what the operations of
-- src/services/prediction.service.ts do to the sum of both.
use xelma_backend.Base.{
  ℕ, ◌+◌, ◌≡◌, ◌≤◌, ◌⊎◌, inl, inr, refl, ap, true, Option, some, Option-cases, Bool-cases, List, ok,
  Action, find, update, sum_by, sum_by-update, update_absent, transaction, arith, after_transaction,
}
use xelma_backend.Schema.{
  User, user_row, Round, round_row, Prediction, prediction_row, ChainStatus, chain_eq, Db, Error,
}
use xelma_backend.Bets.{create_event}
use xelma_backend.Resolution.Accounts.{total_balance}
use xelma_backend.Predictions.Reserving.{announce_prediction}
use xelma_backend.Predictions.Finalizing.{
  pay, pay_back, write_prediction_row, finalize_chain_success, can_compensate, leave_round,
  compensate_body, compensated_row, compensate_prediction, confirmed_row,
}
use xelma_backend.Predictions.Rows.{stake, IsSound, IsSound-mono, IsFair, IsSound-update}

-- The balances and the stakes that are held for predictions.
unfoldable pub funds : Db → ℕ
funds db = total_balance db.users + sum_by stake db.predictions

-- The predictions are in order.
abbrev pub IsInOrder : Db → Type 0
IsInOrder db = IsSound db.next_id db.predictions

-- No money appears or disappears, and the predictions stay in order.
abbrev pub Conserves : (Db → Db) → Type 0
Conserves step = (db : Db) → IsInOrder db → IsInOrder (step db) × (funds (step db) ≡ funds db)

-- A write to predictions that moves no stake.
sum-update :
    (k : ℕ) (f : Prediction → Prediction) (ps : List Prediction)
    → ((p : Prediction) → stake (f p) ≡ stake p)
    → sum_by stake (update k f ps) ≡ sum_by stake ps
sum-update k f ps same = elim (Option-cases (find k ps)) [
  | inl gone ↦ ap (sum_by stake) (update_absent k f ps gone)
  | inr (p, e) ↦ omega (arith, sum_by-update stake k f p ps e, same p)
]

pub row_written-Conserves :
    (k : ℕ) (f : Prediction → Prediction)
    → IsFair f
    → ((p : Prediction) → stake (f p) ≡ stake p)
    → Conserves (λ db. (write_prediction_row k f db).1)
unfolding write_prediction_row funds
row_written-Conserves k f fair same db h = elim (Option-cases (find k db.predictions)) [
  | inl gone ↦ rw gone (h, refl)
  | inr (p, e) ↦ rw e (
    IsSound-update db.next_id k f db.predictions fair h,
    omega (arith, sum-update k f db.predictions same),
  )
]

announce_prediction-rest :
    (p : Prediction) (round : Round) (db : Db)
    → ((announce_prediction p round db).users ≡ db.users)
      × ((announce_prediction p round db).predictions ≡ db.predictions)
      × (db.next_id ≤ (announce_prediction p round db).next_id)
unfolding announce_prediction create_event
announce_prediction-rest p round db = (refl, refl, omega arith)

-- A confirmation moves no money.
pub finalize_chain_success-Conserves :
    (now id : ℕ) (p : Prediction) (round : Round) (tx_hash : Option ℕ)
    → Conserves (finalize_chain_success now id p round tx_hash)
unfolding finalize_chain_success funds announce_prediction create_event
finalize_chain_success-Conserves now id p round tx_hash db h =
    elim (Option-cases (find id db.predictions)) [
      | inl gone ↦ rw gone (h, refl)
      | inr (q, e) ↦ rw e (elim (Bool-cases (chain_eq q.chain_status ChainStatus.pending)) [
        | inl pending ↦ rw pending (
          IsSound-mono db.next_id _ _ (omega arith) (
              IsSound-update db.next_id id (confirmed_row now tx_hash) db.predictions
                (λ x. (refl, λ y. refl)) h),
          omega (arith, sum-update id (confirmed_row now tx_hash) db.predictions (λ x. refl)),
        )
        | inr other ↦ rw other (h, refl)
      ])
    ]

released :
    (now id : ℕ) (db : Db) (p : Prediction) (u : User)
    → find id db.predictions ≡ some p
    → find p.user_id db.users ≡ some u
    → can_compensate p ≡ true
    → total_balance (update p.user_id (pay p.amount) db.users)
        + sum_by stake (update id (compensated_row now) db.predictions)
      ≡ total_balance db.users + sum_by stake db.predictions
released now id db p u e eu can =
    let held : stake p ≡ p.amount = elim (Option-cases p.compensated_at) [
      | inl n ↦ ground arith
      | inr (t, s) ↦ absurd (ground arith)
    ] in
    omega (
      arith,
      held,
      sum_by-update stake id (compensated_row now) p db.predictions e,
      sum_by-update (λ (v : User). v.virtual_balance) p.user_id (pay p.amount) u db.users eu,
    )

-- A transaction conserves what its body does.
transaction-Conserves :
    {A : Type 0} (m : Action Error Db A)
    → Conserves (λ db. (m db).1)
    → Conserves (λ db. (transaction m db).1)
transaction-Conserves m body db h =
    after_transaction (λ r. IsInOrder r.1 × (funds r.1 ≡ funds db)) m db
      (λ a s' e. rw e at (body db h)) (λ x s' e. (h, refl))

-- A compensation as one write, where it happens; a call for a row that cannot be compensated writes
-- nothing.
pub compensate_body_lem :
    (id : ℕ) (db : Db)
    → ((now : ℕ) → (compensate_body now id db).1 ≡ db)
      ⊎ ((p : Prediction) × (round : Round) × (u : User) × (find id db.predictions ≡ some p)
          × (find p.user_id db.users ≡ some u)
          × (can_compensate p ≡ true)
          × ((now : ℕ)
              → compensate_body now id db ≡ (
                ok tt,
                record db {
                  users = update p.user_id (pay p.amount) db.users;
                  rounds = leave_round round.mode p db.rounds;
                  predictions = update id (compensated_row now) db.predictions;
                },
              )))
unfolding compensate_body pay_back write_prediction_row
compensate_body_lem id db = elim (Option-cases (find id db.predictions)) [
  | inl gone ↦ inl (λ now. ground arith)
  | inr (p, e) ↦ elim (Option-cases (find p.round_id db.rounds)) [
    | inl lost ↦ inl (λ now. ground arith)
    | inr (round, er) ↦ elim (Option-cases (find p.user_id db.users)) [
      | inl nobody ↦ inl (λ now. ground arith)
      | inr (u, eu) ↦ elim (Bool-cases (can_compensate p)) [
        | inl can ↦ inr (p, round, u, e, eu, can, λ now. ground arith)
        | inr cannot ↦ inl (λ now. ground arith)
      ]
    ]
  ]
]

compensate_body-Conserves : (now id : ℕ) → Conserves (λ db. (compensate_body now id db).1)
unfolding funds
compensate_body-Conserves now id db h = elim (compensate_body_lem id db) [
  | inl idle ↦ rw (idle now) (h, refl)
  | inr (p, round, u, e, eu, can, done) ↦ rw (done now) (
    IsSound-update db.next_id id (compensated_row now) db.predictions (λ x. (refl, λ y. refl)) h,
    released now id db p u e eu can,
  )
]

-- A compensation pays the stake back and releases it, or does nothing.
pub compensate_prediction-Conserves :
    (now id : ℕ) → Conserves (λ db. (compensate_prediction now id db).1)
unfolding compensate_prediction
compensate_prediction-Conserves now id =
    transaction-Conserves (compensate_body now id) (compensate_body-Conserves now id)
