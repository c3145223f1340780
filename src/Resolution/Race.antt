-- ===== src/Resolution/Race.antt =====
-- Two settlements of one round: the one that finds the round taken at its status write.
use xelma_backend.Base.{ℕ, ◌≡◌, ◌≢◌, refl, ap, some, List, [], Result, ok, err, find, arith}
use xelma_backend.Schema.{Prediction, Round, round_row, RoundStatus, GameMode, Db, Error}
use xelma_backend.Decimals.{DecimalApi}
use xelma_backend.Lifecycle.{Outcome, RoundData, transition_round}
use xelma_backend.Lifecycle.Graph.{◌⟶◌, settles}
use xelma_backend.Lifecycle.Safety.{transition_round_moves}
use xelma_backend.Resolution.Writes.{Settling}
use xelma_backend.Resolution.Resolve.{
  Surroundings, settleable, on_rounds, transition_in_tx, settlement_transaction, by_mode,
  settle_in_tx, resolve_round,
}
use xelma_backend.Resolution.Safety.{
  tx_start, paid, closing, close_after, settle_locked-close_after, resolve_round_settled,
}
use xelma_backend.Resolution.Untouched.{resolve_up_down_round-Fixes, resolve_legends_round-Fixes}

from_locked : {s : RoundStatus} → s ⟶ RoundStatus.resolved → s ≡ RoundStatus.locked
from_locked settles = refl

-- The row that the status write met was LOCKED.
met_locked :
    (during : List Round → List Round) (id : ℕ) (fields : RoundData) (s : Settling)
    → (transition_in_tx during id fields s).0 ≡ ok tt
    → (b : Round) × (find id (during s.db.rounds) ≡ some b) × (b.status ≡ RoundStatus.locked)
unfolding transition_in_tx
met_locked during id fields s =
    go (transition_round (on_rounds during) id RoundStatus.resolved fields s.db) refl
  where
    go :
        (p : Result Error Round × Db)
        → transition_round (on_rounds during) id RoundStatus.resolved fields s.db ≡ p
        → (elim p.0 as (λ x. Result Error (Unit {0})) [ ok round ↦ ok tt | err e ↦ err e ]) ≡ ok tt
        → (b : Round) × (find id (during s.db.rounds) ≡ some b) × (b.status ≡ RoundStatus.locked)
    go (ok r, db') e h =
        let (b, found, edge, written, rest) =
          transition_round_moves (on_rounds during) id RoundStatus.resolved fields s.db r db' e in
        (b, found, from_locked edge)
    go (err x, db') e h = cc

module _ (api : DecimalApi) (around : Surroundings) (final_price : api.Decimal) (id : ℕ)
    (db : Db) where
  open around use {before_tx, during_tx}

  paid-rounds :
      (mode : GameMode) (r : Round) (ps : List Prediction) (s : Settling)
      → (by_mode api around final_price mode r ps s).1.db.rounds ≡ s.db.rounds
  unfolding by_mode
  paid-rounds GameMode.up_down r ps s = resolve_up_down_round-Fixes api around.now r _ _ _ ps s
  paid-rounds GameMode.legends r ps s = resolve_legends_round-Fixes api around.now r _ ps s

  closed_on_locked :
      (p : Result Error (Unit {0}) × Settling)
      → (close_after api around final_price id db p).0 ≡ ok tt
      → (b : Round) × (find id (during_tx p.1.db.rounds) ≡ some b) × (b.status ≡ RoundStatus.locked)
  closed_on_locked (ok a, s) h = met_locked during_tx id (closing api around final_price id db) s h
  closed_on_locked (err e, s) h = cc

  -- A call that settles has met the round LOCKED at its status write, among the rounds as others had
  -- left them by then.
  settled_on_locked :
      (db' : Db)
      → resolve_round api around final_price id db ≡ (ok Outcome.updated, db')
      → (b : Round) × (find id (during_tx (before_tx db.rounds)) ≡ some b)
        × (b.status ≡ RoundStatus.locked)
  settled_on_locked db' h =
      let (r, found, locked, went, commits) =
        resolve_round_settled api around final_price id db db' h in
      let (b, there, was) =
        closed_on_locked (paid api around final_price id db r)
          (rw (settle_locked-close_after api around final_price id db r) at went) in
      let same : (paid api around final_price id db r).1.db.rounds ≡ before_tx db.rounds =
        paid-rounds r.mode r (settleable id (tx_start api around final_price id db))
          (record { db = tx_start api around final_price id db; tx_outbox = [] }) in
      (b, rw same at there, was)

  not_updated :
      (res : Result Error Outcome) (db' : Db)
      → resolve_round api around final_price id db ≡ (res, db')
      → res ≢ ok Outcome.updated
      → (db'.users ≡ db.users) × (db'.predictions ≡ db.predictions)
  unfolding resolve_round settle_in_tx settlement_transaction
  not_updated res db' h ne = ground arith

  -- If other connections have left the round in a status that is not LOCKED by the time of a call's
  -- status write (as another settlement or a cancellation does), the call pays nobody: it does not
  -- report a settlement, and the accounts and the predictions are as before.
  pub race_loser_pays_nobody :
      (r : Round)
      → find id (during_tx (before_tx db.rounds)) ≡ some r
      → r.status ≢ RoundStatus.locked
      → ((resolve_round api around final_price id db).0 ≢ ok Outcome.updated)
        × ((resolve_round api around final_price id db).1.users ≡ db.users)
        × ((resolve_round api around final_price id db).1.predictions ≡ db.predictions)
  race_loser_pays_nobody r e taken =
      let lost : (resolve_round api around final_price id db).0 ≢ ok Outcome.updated = λ won.
        let (b, there, was) =
          settled_on_locked (resolve_round api around final_price id db).1
            (ap (λ x. (x, (resolve_round api around final_price id db).1)) won) in
        taken (ground arith) in
      let (users, predictions) = not_updated _ _ refl lost in (lost, users, predictions)
