-- ===== src/Resolution/Resolve.antt =====
-- `resolveRound` of src/services/resolution.service.ts. What follows the commit (cache
-- invalidation, metrics, the broadcast, the educational tip) is left out, and the result is its
-- outcome.
use xelma_backend.Base.{
  ℕ, Bool, ◌&&◌, ◌==◌, ◌||◌, Option, none, some, List, [], ◌++◌, filter, Result, ok, err, Action,
  pure, ◌>>◌, find, if◌then◌else◌,
}
use xelma_backend.Decimals.{DecimalApi}
use xelma_backend.Schema.{
  GameMode, RoundStatus, Round, round_row, Prediction, ChainStatus, chain_eq, Db, Error, ChainError,
}
use xelma_backend.Lifecycle.{Outcome, RoundData, transition_round}
use xelma_backend.Resolution.Writes.{Settling, Settlement}
use xelma_backend.Resolution.UpDown.{resolve_up_down_round}
use xelma_backend.Resolution.Legends.{resolve_legends_round}

-- `predictions: { where: { chainStatus: { in: ['CONFIRMED', 'NOT_REQUIRED'] } } }`
abbrev pub is_settleable : ℕ → Prediction → Bool
is_settleable round_id p =
    p.round_id == round_id
    && (chain_eq p.chain_status ChainStatus.confirmed
        || chain_eq p.chain_status ChainStatus.not_required)

unfoldable pub settleable : ℕ → Db → List Prediction
settleable round_id db = filter (is_settleable round_id) db.predictions

-- What the call meets from outside: the state of the price feed, the configuration and the reply of
-- the chain client, and the rounds as other connections commit them before the transaction starts
-- and between the payouts and the status write.
pub record Surroundings : Type 0 where
  pub now : ℕ
  pub oracle_running : Bool
  pub price_stale : Bool
  pub fail_closed : Bool
  pub chain_failure : Option ChainError
  pub before_tx : List Round → List Round
  pub during_tx : List Round → List Round

-- Nobody else writes rounds.
abbrev pub alone : List Round → List Round
alone rs = rs

abbrev pub on_rounds : (List Round → List Round) → Db → Db
on_rounds f db = record db { rounds = f db.rounds }

-- `transitionRound` with the transaction client
unfoldable pub transition_in_tx :
    (during : List Round → List Round) (round_id : ℕ) (fields : RoundData) → Settlement
transition_in_tx during round_id fields s =
    let (r, db) = transition_round (on_rounds during) round_id RoundStatus.resolved fields s.db in
    (elim r [ ok round ↦ ok tt | err e ↦ err e ], record s { db = db })

-- The commit publishes the queued outbox rows. A rollback takes back the settlement's own writes;
-- bets that `resolveBet` closed, their outbox rows, and what others committed stay.
unfoldable pub settlement_transaction :
    (start : Db) (during : List Round → List Round)
    → Result Error (Unit {0}) × Settling
    → Result Error Outcome × Db
settlement_transaction start during (ok _, s) =
    (ok Outcome.updated, record (s.db) { outbox = s.db.outbox ++ s.tx_outbox })
settlement_transaction start during (err e, s) = (
  err e,
  record (s.db) {
    users = start.users;
    rounds = during start.rounds;
    predictions = start.predictions;
  },
)

module _ (api : DecimalApi) (around : Surroundings) (final_price : api.Decimal) where
  open api use {to_number}
  open around use {now, fail_closed, chain_failure, before_tx, during_tx}

  unfoldable pub by_mode : GameMode → Round → List Prediction → Settlement
  by_mode GameMode.up_down round predictions =
      resolve_up_down_round api now round fail_closed chain_failure final_price predictions
  by_mode GameMode.legends round predictions =
      resolve_legends_round api now round final_price predictions

  -- The transaction of a round that is LOCKED in it.
  unfoldable pub settle_locked : ℕ → Round → Db → Result Error (Unit {0}) × Settling
  settle_locked round_id round db =
      (by_mode round.mode round (settleable round_id db)
          >> transition_in_tx during_tx round_id
              (record { end_price = some (to_number final_price); resolved_at = some now }))
        (record { db = db; tx_outbox = [] })

  -- The checks that are made outside and again inside the transaction.
  abbrev pub when_locked :
      Option Round → (Round → Action Error Db Outcome) → Action Error Db Outcome
  when_locked none go = pure Outcome.no_op
  when_locked (some r) go = elim r.status [
    | RoundStatus.resolved ↦ pure Outcome.already_resolved
    | RoundStatus.locked ↦ go r
    | _ ↦ pure Outcome.no_op
  ]

  unfoldable pub settle_in_tx : ℕ → Action Error Db Outcome
  settle_in_tx round_id db =
      when_locked (find round_id db.rounds)
        (λ r db'. settlement_transaction db' during_tx (settle_locked round_id r db')) db

  unfoldable pub resolve_round : ℕ → Action Error Db Outcome
  resolve_round round_id db =
      if around.oracle_running && around.price_stale
      then (err (Error.external_service "Cannot resolve round: oracle price data is stale"), db)
      else when_locked (find round_id db.rounds)
          (λ r db'. settle_in_tx round_id (on_rounds before_tx db')) db
