-- ===== src/Predictions/Charging.antt =====
-- What the writes of a reservation of src/services/prediction.service.ts do: the charge, the pools and
-- the row.
use xelma_backend.Base.{
  ℕ, ◌+◌, ◌≡◌, ◌≤◌, inl, inr, Option, none, some, Option-cases, [], ◌∷◌, ◌++◌, Result, ok, err,
  find, update, arith, after, Action, ◌>>=◌, ap, ◌∙◌, pure,
}
use xelma_backend.Schema.{
  User, user_row, Round, round_row, GameMode, Prediction, prediction_row, ChainStatus, Db, Error,
}
use xelma_backend.Bets.{create_event}
use xelma_backend.Predictions.Reserving.{
  PredictionInput, Reservation, charge, take_stake, add_to_pools, target_status, reuse_row, new_row,
  write_prediction, join_pool, announce_prediction, write_reservation,
}

-- The row of the reservation: a new one, or the FAILED one of an earlier attempt.
abbrev pub RowWritten :
    (now : ℕ) (input : PredictionInput) (amount : ℕ) (status : ChainStatus)
    (existing : Option Prediction) (row : Prediction) (db db' : Db)
    → Type 0
RowWritten now input amount status none row db db' =
    (row ≡ new_row now input amount status db.next_id)
    × (db'.predictions ≡ db.predictions ++ row ∷ [])
    × (db.next_id + 1 ≤ db'.next_id)
RowWritten now input amount status (some q) row db db' =
    (row ≡ reuse_row input amount status q)
    × (db'.predictions ≡ update q.id (reuse_row input amount status) db.predictions)
    × (db.next_id ≤ db'.next_id)

-- The stake joins the pools of an UP_DOWN round.
abbrev pub PoolsJoined : GameMode → PredictionInput → ℕ → Round → (before after : Db) → Type 0
PoolsJoined GameMode.up_down input amount round before after =
    after.rounds ≡ update round.id (add_to_pools input.side amount) before.rounds
PoolsJoined GameMode.legends input amount round before after = Unit

-- The account is charged what it has, the stake joins the pools, and the row is written.
abbrev pub Charged :
    (now : ℕ) (input : PredictionInput) (amount : ℕ) (round : Round) (existing : Option Prediction)
    (row : Prediction) (db db' : Db)
    → Type 0
Charged now input amount round existing row db db' =
    (u : User) × (find input.user_id db.users ≡ some u)
    × (amount ≤ u.virtual_balance)
    × (db'.users ≡ update input.user_id (charge amount) db.users)
    × PoolsJoined round.mode input amount round db db'
    × RowWritten now input amount (target_status round.mode) existing row db db'

abbrev pub ChargedIfOk :
    (now : ℕ) (input : PredictionInput) (amount : ℕ) (round : Round) (existing : Option Prediction)
    (db : Db)
    → Result Error Reservation × Db
    → Type 0
ChargedIfOk now input amount round existing db (ok r, db') =
    Charged now input amount round existing r.prediction db db'
ChargedIfOk now input amount round existing db (err e, db') = Unit

join_pool-rest :
    (input : PredictionInput) (amount : ℕ) (round : Round) (p : Prediction) (db : Db)
    → ((join_pool input amount round p db).1.users ≡ db.users)
      × ((join_pool input amount round p db).1.predictions ≡ db.predictions)
      × (db.next_id ≤ (join_pool input amount round p db).1.next_id)
      × PoolsJoined round.mode input amount round db (join_pool input amount round p db).1
unfolding join_pool announce_prediction create_event
join_pool-rest input amount round p db = ground arith

take_stake_lem :
    (user_id amount : ℕ) (db : Db) (u : User) (db' : Db)
    → take_stake user_id amount db ≡ (ok u, db')
    → (v : User) × (find user_id db.users ≡ some v)
      × (amount ≤ v.virtual_balance)
      × (db' ≡ record db { users = update user_id (charge amount) db.users })
unfolding take_stake
take_stake_lem user_id amount db u db' h = elim (Option-cases (find user_id db.users)) [
  | inl gone ↦ absurd (ground arith)
  | inr (v, e) ↦ (v, e, ground arith, ground arith)
]

write_prediction_lem :
    (now : ℕ) (input : PredictionInput) (amount : ℕ) (status : ChainStatus)
    (existing : Option Prediction) (db : Db) (p : Prediction) (db' : Db)
    → write_prediction now input amount status existing db ≡ (ok p, db')
    → RowWritten now input amount status existing p db db'
      × (db'.users ≡ db.users)
      × (db'.rounds ≡ db.rounds)
unfolding write_prediction
write_prediction_lem now input amount status none db p db' h =
    ((ground arith, ground arith, ground arith), ground arith, ground arith)
write_prediction_lem now input amount status (some q) db p db' h =
    ((ground arith, ground arith, ground arith), ground arith, ground arith)

pub write_reservation-ChargedIfOk :
    (now : ℕ) (input : PredictionInput) (amount : ℕ) (round : Round) (existing : Option Prediction)
    (db : Db)
    → ChargedIfOk now input amount round existing db
        (write_reservation now input amount round existing db)
unfolding write_reservation
write_reservation-ChargedIfOk now input amount round existing db =
    after P with_user (take_stake input.user_id amount db)
      (λ u s e.
        after P (with_row u) (write_prediction now input amount status existing s)
          (λ p s' e'.
            after P (with_pool u p) (join_pool input amount round p s')
              (λ r s'' e''. joined u s e p s' e' r s'' e'') (λ x s'' e''. tt))
          (λ x s' e'. tt))
      (λ x s e. tt)
  where
    status : ChainStatus
    status = target_status round.mode

    P : Result Error Reservation × Db → Type 0
    P = ChargedIfOk now input amount round existing db

    with_pool : User → Prediction → Round → Action Error Db Reservation
    with_pool u p r = pure (record { prediction = p; user = u; updated_round = r })

    with_row : User → Prediction → Action Error Db Reservation
    with_row u p = join_pool input amount round p >>= with_pool u p

    with_user : User → Action Error Db Reservation
    with_user u = write_prediction now input amount status existing >>= with_row u

    kept :
        (ex : Option Prediction) (p : Prediction) (a b b' : Db)
        → RowWritten now input amount status ex p a b
        → b'.predictions ≡ b.predictions
        → b.next_id ≤ b'.next_id
        → RowWritten now input amount status ex p a b'
    kept none p a b b' (row, written, next) same le = (row, same ∙ written, omega arith)
    kept (some q) p a b b' (row, written, next) same le = (row, same ∙ written, omega arith)

    moved :
        (ex : Option Prediction) (p : Prediction) (a a' b : Db)
        → a'.predictions ≡ a.predictions
        → a'.next_id ≡ a.next_id
        → RowWritten now input amount status ex p a' b
        → RowWritten now input amount status ex p a b
    moved none p a a' b same next (row, written, le) = (cc, cc, omega arith)
    moved (some q) p a a' b same next (row, written, le) = (row, cc, omega arith)

    begun :
        (mode : GameMode) (a a' b : Db)
        → a'.rounds ≡ a.rounds
        → PoolsJoined mode input amount round a' b
        → PoolsJoined mode input amount round a b
    begun GameMode.up_down a a' b same pools =
        pools ∙ ap (update round.id (add_to_pools input.side amount)) same
    begun GameMode.legends a a' b same pools = tt

    joined :
        (u : User) (s : Db)
        → take_stake input.user_id amount db ≡ (ok u, s)
        → (p : Prediction) (s' : Db)
        → write_prediction now input amount status existing s ≡ (ok p, s')
        → (r : Round) (s'' : Db) → join_pool input amount round p s' ≡ (ok r, s'')
        → Charged now input amount round existing p db s''
    joined u s e p s' e' r s'' e'' =
        let (v, found, enough, charged) = take_stake_lem input.user_id amount db u s e in
        let (written, users, rounds) =
          write_prediction_lem now input amount status existing s p s' e' in
        let (users', predictions, next, pools) =
          rw e'' at (join_pool-rest input amount round p s') in
        (
          v,
          found,
          enough,
          cc,
          begun round.mode db s' s'' (rounds ∙ ap (λ (d : Db). d.rounds) charged) pools,
          kept existing p db s' s''
              (moved existing p db s s' (ap (λ (d : Db). d.predictions) charged)
                (ap (λ (d : Db). d.next_id) charged) written)
              predictions next,
        )
