-- ===== src/Resolution/Writes.antt =====
-- The writes that settlement makes, on the database as its transaction sees it. `resolveBet` opens
-- a transaction of its own on the shared client, so what it writes is committed at once, whatever
-- becomes of the settlement; the outbox rows of the settlement itself wait for the commit.
use xelma_backend.Base.{
  ℕ, ◌+◌, Bool, true, false, ◌&&◌, ◌==◌, Option, none, some, List, [], ◌∷◌, ◌++◌, ok, err, Action,
  find, find_first, update, if◌then◌else◌, is_some,
}
use xelma_backend.Schema.{
  User, user_row, Prediction, prediction_row, Bet, BetStatus, bet_status_eq, OutboxEvent, Payload,
  NotificationKind, Db, Error, ChainError,
}
use xelma_backend.Bets.{event, resolve_bet, same_hash}

pub record Settling : Type 0 where
  pub db : Db
  pub tx_outbox : List OutboxEvent

abbrev pub Settlement : Type 0
Settlement = Action Error Settling (Unit {0})

-- `db.prediction.update({ where: { id }, data })`
unfoldable pub update_prediction : ℕ → (Prediction → Prediction) → Settlement
update_prediction id f s =
    if is_some (find id s.db.predictions)
    then (ok tt, record s { db = record (s.db) { predictions = update id f s.db.predictions } })
    else (err Error.record_not_found, s)

-- `db.user.update({ where: { id }, data })`
unfoldable pub update_user : ℕ → (User → User) → Settlement
update_user id f s =
    if is_some (find id s.db.users)
    then (ok tt, record s { db = record (s.db) { users = update id f s.db.users } })
    else (err Error.record_not_found, s)

abbrev pub is_confirmed_bet : (user_id round_id : ℕ) → Bet → Bool
is_confirmed_bet user_id round_id b =
    b.user_id == user_id
    && same_hash b.round_id round_id
    && bet_status_eq b.status BetStatus.confirmed

-- `db.bet.findFirst`, then `betService.resolveBet`
unfoldable pub close_bet : (now user_id round_id : ℕ) (won : Bool) (payout : ℕ) → Settlement
close_bet now user_id round_id won payout s =
    elim (find_first (is_confirmed_bet user_id round_id) s.db.bets) [
      | none ↦ (ok tt, s)
      | some b ↦ (ok tt, record s { db = (resolve_bet now b.id won payout s.db).1 })
    ]

-- `db.outboxEvent.create` in the settlement's transaction
unfoldable pub queue_event : (aggregate_id : ℕ) → Payload → Settlement
queue_event aggregate_id payload s = (
  ok tt,
  record s {
    db = record (s.db) { next_id = s.db.next_id + 1 };
    tx_outbox = s.tx_outbox ++ event s.db.next_id aggregate_id payload ∷ [];
  },
)

abbrev pub kind_of : Bool → NotificationKind
kind_of true = NotificationKind.win
kind_of false = NotificationKind.loss

-- `sorobanService.applyMoneyPathFailure`: a failed chain call ends the settlement only under
-- fail-closed.
unfoldable pub apply_chain_result : (fail_closed : Bool) (failure : Option ChainError) → Settlement
apply_chain_result fail_closed none s = (ok tt, s)
apply_chain_result true (some e) s = (err (Error.chain e), s)
apply_chain_result false (some e) s = (ok tt, s)
