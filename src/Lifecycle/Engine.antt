-- ===== src/Lifecycle/Engine.antt =====
-- The graph of src/types/round.types.ts and the engine of src/services/round-lifecycle.service.ts.
-- The WebSocket broadcast, the cache invalidation, metrics and logs are left out.
use xelma_backend.Base.{
  ℕ, Bool, true, false, not, ◌||◌, Option, none, some, List, [], ◌∷◌, Action, ok, pure, throw_if,
  or_throw, gets, modify, ◌>>=◌, ◌>>◌, find, update,
}
use xelma_backend.Schema.{RoundStatus, Round, round_row, Db, Error, status_eq}

-- ROUND_LIFECYCLE_TRANSITIONS, by destination.
unfoldable pub allowed_sources_for : RoundStatus → List RoundStatus
allowed_sources_for RoundStatus.active = RoundStatus.pending ∷ []
allowed_sources_for RoundStatus.locked = RoundStatus.active ∷ []
allowed_sources_for RoundStatus.resolved = RoundStatus.locked ∷ []
allowed_sources_for RoundStatus.cancelled = RoundStatus.active ∷ RoundStatus.locked ∷ []
allowed_sources_for RoundStatus.pending = []

abbrev pub includes : List RoundStatus → RoundStatus → Bool
includes [] s = false
includes (x ∷ xs) s = status_eq x s || includes xs s

unfoldable pub is_legal_round_transition : RoundStatus → RoundStatus → Bool
unfolding allowed_sources_for
is_legal_round_transition from to = includes (allowed_sources_for to) from

-- The other columns that a transition writes; `none` is a column that it leaves alone.
pub record RoundData : Type 0 where
  pub end_price : Option ℕ
  pub resolved_at : Option ℕ

abbrev pub no_data : RoundData
no_data = record { end_price = none; resolved_at = none }

abbrev pub or_else : Option ℕ → Option ℕ → Option ℕ
or_else none old = old
or_else (some n) old = some n

abbrev pub write_round : RoundStatus → RoundData → Round → Round
write_round to fields r = record r {
  status = to;
  end_price = or_else fields.end_price r.end_price;
  resolved_at = or_else fields.resolved_at r.resolved_at;
}

-- `updateMany({ where: { id, status: { in: allowed } } })`: the number of rows that it met is 0
-- or 1, given back as whether there was one.
unfoldable pub compare_and_set : ℕ → RoundStatus → RoundData → Action Error Db Bool
unfolding is_legal_round_transition
compare_and_set id to fields db = elim (find id db.rounds) [
  | none ↦ (ok false, db)
  | some r ↦ elim (is_legal_round_transition r.status to) [
    | true ↦ (ok true, record db { rounds = update id (write_round to fields) db.rounds })
    | false ↦ (ok false, db)
  ]
]

-- `transitionRound`. `meanwhile` is what other connections commit between the read of the row and
-- the conditional update.
unfoldable pub transition_round :
    (meanwhile : Db → Db) (round_id : ℕ) (to : RoundStatus) (fields : RoundData)
    → Action Error Db Round
unfolding compare_and_set is_legal_round_transition
transition_round meanwhile round_id to fields = do
  existing ← or_throw (← gets (λ db. find round_id db.rounds)) (Error.not_found "Round not found")
  throw_if (not (is_legal_round_transition existing.status to))
      (Error.illegal_round_transition existing.status to)
  modify meanwhile
  matched ← compare_and_set round_id to fields
  throw_if (not matched) (Error.illegal_round_transition existing.status to)
  or_throw (← gets (λ db. find round_id db.rounds))
      (Error.not_found "Round not found after transition")

pub data Outcome : Type 0 where
  updated already_locked already_resolved no_op : Outcome

-- the early returns of `lockRound`, by the status that it read
abbrev lock_status : RoundStatus → Action Error Db Outcome → Action Error Db Outcome
lock_status RoundStatus.locked go = pure Outcome.already_locked
lock_status RoundStatus.resolved go = pure Outcome.no_op
lock_status RoundStatus.cancelled go = pure Outcome.no_op
lock_status _ go = go

-- `lockRound`
unfoldable pub lock_round : (meanwhile : Db → Db) (round_id : ℕ) → Action Error Db Outcome
unfolding transition_round
lock_round meanwhile round_id db = elim (find round_id db.rounds) [
  | none ↦ (ok Outcome.no_op, db)
  | some r ↦
      lock_status r.status
        (transition_round meanwhile round_id RoundStatus.locked no_data >> pure Outcome.updated) db
]
