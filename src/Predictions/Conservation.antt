-- ===== src/Predictions/Conservation.antt =====
-- Submissions and batches conserve money: src/services/prediction.service.ts.
use xelma_backend.Base.{
  ℕ, ◌+◌, ◌≡◌, ◌≤◌, inl, inr, refl, ◌∙◌, Bool, true, Bool-cases, Option, none, some, List, [], ◌∷◌,
  Result, ok, err, Action, ◌>>◌, ◌>>=◌, pure, throw, modify, find, find_first, update, sum_by,
  sum_by-update, sum_by-append, arith, All,
}
use xelma_backend.Schema.{
  User, user_row, GameMode, Prediction, prediction_row, ChainStatus, Db, Error, ChainError,
}
use xelma_backend.Decimals.{DecimalApi}
use xelma_backend.Resolution.Accounts.{total_balance}
use xelma_backend.Predictions.Reserving.{
  PredictionInput, Reservation, check_existing, charge, target_status, reuse_row, new_row, reserve,
}
use xelma_backend.Predictions.Finalizing.{
  Chain, handle_chain_failure, chain_phase, submit_prediction, submit_batch, finish, read_back,
}
use xelma_backend.Predictions.Rows.{
  stake, is_paid_back_if_failed, IsSound-mono, IsSound-update, IsSound-append, find-find_first,
  find-IsSound,
}
use xelma_backend.Predictions.Charging.{RowWritten}
use xelma_backend.Predictions.Found.{amount_of, earlier, Reserved, reserve-Reserved}
use xelma_backend.Predictions.Funds.{
  funds, IsInOrder, Conserves, row_written-Conserves, finalize_chain_success-Conserves,
  compensate_prediction-Conserves,
}

-- The statuses that a row is written with are not FAILED.
target_is_live :
    (mode : GameMode) (p : Prediction)
    → p.chain_status ≡ target_status mode
    → is_paid_back_if_failed p ≡ true
target_is_live GameMode.up_down p e = ground arith
target_is_live GameMode.legends p e = ground arith

check_existing-failed :
    (q : Prediction) → check_existing (some q) ≡ none → q.chain_status ≡ ChainStatus.failed
unfolding check_existing
check_existing-failed q h = ground arith

row_written :
    (now : ℕ) (input : PredictionInput) (amount : ℕ) (mode : GameMode) (q : Prediction → Bool)
    (existing : Option Prediction) (row : Prediction) (db db' : Db)
    → IsInOrder db
    → find_first q db.predictions ≡ existing
    → check_existing existing ≡ none
    → RowWritten now input amount (target_status mode) existing row db db'
    → IsInOrder db' × (sum_by stake db'.predictions ≡ sum_by stake db.predictions + amount)
unfolding reuse_row new_row
row_written now input amount mode q none row db db' h found free (same, written, next) = (
  rw (written, same)
      (IsSound-append db.next_id db'.next_id db.predictions
        (new_row now input amount (target_status mode) db.next_id) (omega arith) (omega arith)
        (target_is_live mode (new_row now input amount (target_status mode) db.next_id) refl) h),
  rw (written, same)
      (omega (
        arith,
        sum_by-append stake db.predictions
            (new_row now input amount (target_status mode) db.next_id ∷ []),
      )),
)
row_written now input amount mode q (some p) row db db' h found free (same, written, next) =
    let failed : p.chain_status ≡ ChainStatus.failed = check_existing-failed p free in
    let there : find p.id db.predictions ≡ some p =
      find-find_first db.next_id q p db.predictions h found in
    let paid : is_paid_back_if_failed p ≡ true =
      find-IsSound db.next_id p.id p db.predictions h there in
    let released : stake p ≡ 0 = ground arith in
    (
      rw written (
          IsSound-mono db.next_id db'.next_id _ next (
            IsSound-update db.next_id p.id (reuse_row input amount (target_status mode))
              db.predictions
              (λ x. (
                refl,
                λ y. target_is_live mode (reuse_row input amount (target_status mode) x) refl,
              ))
              h)),
      rw written (
          omega (
            arith,
            released,
            sum_by-update stake p.id (reuse_row input amount (target_status mode)) p db.predictions
                there,
          )),
    )

charged-total :
    (k amount : ℕ) (u : User) (users : List User)
    → find k users ≡ some u
    → amount ≤ u.virtual_balance
    → total_balance (update k (charge amount) users) + amount ≡ total_balance users
charged-total k amount u users e le =
    omega (arith, sum_by-update (λ (v : User). v.virtual_balance) k (charge amount) u users e)

pub bind-Conserves :
    {A B : Type 0} (m : Action Error Db A) (k : A → Action Error Db B)
    → Conserves (λ db. (m db).1)
    → ((a : A) → Conserves (λ db. (k a db).1))
    → Conserves (λ db. ((m >>= k) db).1)
bind-Conserves {A} {B} m k first next db h = go (m db) (first db h).0 (first db h).1
  where
    go :
        (p : Result Error A × Db)
        → IsInOrder p.1
        → funds p.1 ≡ funds db
        → IsInOrder
            (elim p.0 as (λ x. Result Error B × Db) [ ok a ↦ k a p.1 | err e ↦ (err e, p.1) ]).1
          × (funds
                (elim p.0 as (λ x. Result Error B × Db) [ ok a ↦ k a p.1 | err e ↦ (err e, p.1) ]).1
              ≡ funds db)
    go (ok a, s) order same = ((next a s order).0, (next a s order).1 ∙ same)
    go (err e, s) order same = (order, same)

module _ (api : DecimalApi) where
  -- A reservation moves the amount from the account into the stake.
  reserve-Conserves :
      (now : ℕ) (input : PredictionInput) → Conserves (λ db. (reserve api now input db).1)
  unfolding Reserved funds
  reserve-Conserves now input db h =
      go (reserve api now input db) (reserve-Reserved api now input db)
    where
      go :
          (p : Result Error Reservation × Db)
          → Reserved api now input db p
          → IsInOrder p.1 × (funds p.1 ≡ funds db)
      go (err e, db') same = rw same (h, refl)
      go (ok r, db') (round, found, is_open, free, fits, (u, eu, enough, users, pools, written)) =
          let (order, stakes) =
            row_written now input (amount_of api input) round.mode _ (earlier api input db)
              r.prediction db db' h refl free written in
          (
            order,
            rw users (
                omega (
                  arith,
                  stakes,
                  charged-total input.user_id (amount_of api input) u db.users eu enough,
                )),
          )

  failure-Conserves :
      (now id : ℕ) (e : ChainError) → Conserves (λ db. (handle_chain_failure now id e db).1)
  unfolding handle_chain_failure
  failure-Conserves now id e db h = elim (Bool-cases e.is_timeout) [
    | inl late ↦ rw late (
        row_written-Conserves id (λ p. record p { chain_status = ChainStatus.submitted })
          (λ x. (refl, λ y. refl)) (λ x. refl) db h)
    | inr refused ↦ rw refused (compensate_prediction-Conserves now id db h)
  ]

  finish-Conserves :
      (chain : Chain) (r : Reservation) (reply : Result ChainError (Option ℕ))
      (finalized : Option ChainError)
      → Conserves (λ db. (finish chain r reply finalized db).1)
  finish-Conserves chain r (ok tx) none =
      finalize_chain_success-Conserves chain.now r.prediction.id r.prediction r.updated_round tx
  finish-Conserves chain r (ok tx) (some e) =
      bind-Conserves (handle_chain_failure chain.now r.prediction.id e) (λ a. throw (Error.chain e))
        (failure-Conserves chain.now r.prediction.id e) (λ a db h. (h, refl))
  finish-Conserves chain r (err e) finalized =
      bind-Conserves (handle_chain_failure chain.now r.prediction.id e) (λ a. throw (Error.chain e))
        (failure-Conserves chain.now r.prediction.id e) (λ a db h. (h, refl))

  read_back-Conserves : (id : ℕ) → Conserves (λ db. (read_back id db).1)
  read_back-Conserves id db h = rw (reads id db) (h, refl)
    where
      reads : (id : ℕ) (db : Db) → (read_back id db).1 ≡ db
      reads id db = ground arith

  chain_phase-Conserves :
      (chain : Chain) (r : Reservation)
      → Conserves chain.meanwhile
      → Conserves (λ db. (chain_phase chain r db).1)
  unfolding chain_phase
  chain_phase-Conserves chain r others = go r.updated_round.mode
    where
      go :
          (mode : GameMode)
          → Conserves (λ db.
            (elim mode as (λ m. Action Error Db Prediction) [
              | GameMode.legends ↦ pure r.prediction
              | GameMode.up_down ↦
                  modify chain.meanwhile
                  >> (finish chain r chain.reply chain.finalize_error >> read_back r.prediction.id)
            ]
              db).1)
      go GameMode.legends = λ db h. (h, refl)
      go GameMode.up_down =
          bind-Conserves (modify chain.meanwhile)
            (λ a. finish chain r chain.reply chain.finalize_error >> read_back r.prediction.id)
            others
            (λ a.
              bind-Conserves (finish chain r chain.reply chain.finalize_error)
                (λ b. read_back r.prediction.id)
                (finish-Conserves chain r chain.reply chain.finalize_error)
                (λ b. read_back-Conserves r.prediction.id))

  -- Submitting a prediction conserves money on every way out, whatever the chain answers and whether
  -- or not the result is stored: the sum of all balances and of the stakes that are held is as
  -- before, and the predictions stay in order (unique identifiers, every FAILED one paid back), if they
  -- are in order and what others commit in the meantime conserves both too.
  pub submit_prediction-Conserves :
      (input : PredictionInput) (chain : Chain)
      → Conserves chain.meanwhile
      → (db : Db) → IsInOrder db
      → IsInOrder (submit_prediction api input chain db).1
        × (funds (submit_prediction api input chain db).1 ≡ funds db)
  unfolding submit_prediction
  submit_prediction-Conserves input chain others =
      bind-Conserves (reserve api chain.now input) (chain_phase chain)
        (reserve-Conserves chain.now input) (λ r. chain_phase-Conserves chain r others)

  -- A batch of submissions over predictions in order conserves the sum of balances and held stakes
  -- and keeps the order, with failed items among the others, if what others commit during each item
  -- does.
  pub submit_batch-Conserves :
      (items : List (PredictionInput × Chain))
      → All (λ item. Conserves item.1.meanwhile) items
      → (db : Db) → IsInOrder db
      → IsInOrder (submit_batch api items db).1 × (funds (submit_batch api items db).1 ≡ funds db)
  unfolding submit_batch
  submit_batch-Conserves [] others db h = (h, refl)
  submit_batch-Conserves ((input, chain) ∷ items) (first, rest) db h =
      let (order, same) = submit_prediction-Conserves input chain first db h in
      let (order', same') =
        submit_batch-Conserves items rest (submit_prediction api input chain db).1 order in
      (order', same' ∙ same)
