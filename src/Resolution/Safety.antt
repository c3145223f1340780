-- ===== src/Resolution/Safety.antt =====
-- Settlement as a whole: what a call of `resolveRound` does to the database on every way out,
-- whatever other connections commit to the rounds in between.
use xelma_backend.Base.{
  ℕ, ◌≡◌, ◌≢◌, ◌⊎◌, refl, false, ◌&&◌, some, Option-cases, inl, inr, List, [], Result, ok, err,
  find, find-update_self, arith,
}
use xelma_backend.Schema.{Round, round_row, RoundStatus, Db, Error}
use xelma_backend.Decimals.{DecimalApi}
use xelma_backend.Lifecycle.{Outcome, RoundData, write_round, transition_round}
use xelma_backend.Lifecycle.Safety.{transition_round_moves}
use xelma_backend.Resolution.Writes.{Settling}
use xelma_backend.Resolution.Resolve.{
  Surroundings, settleable, on_rounds, transition_in_tx, settlement_transaction, by_mode,
  settle_locked, settle_in_tx, resolve_round,
}

-- The round is RESOLVED after `transitionRound`, and the accounts are as before.
abbrev IsClosed : ℕ → Settling → Result Error (Unit {0}) × Settling → Type 0
IsClosed id s (ok _, s') =
    (r : Round) × (find id s'.db.rounds ≡ some r)
    × (r.status ≡ RoundStatus.resolved)
    × (s'.db.users ≡ s.db.users)
IsClosed id s (err e, s') = Unit

transition_in_tx-IsClosed :
    (during : List Round → List Round) (id : ℕ) (fields : RoundData) (s : Settling)
    → IsClosed id s (transition_in_tx during id fields s)
unfolding transition_in_tx
transition_in_tx-IsClosed during id fields s =
    go (transition_round (on_rounds during) id RoundStatus.resolved fields s.db) refl
  where
    go :
        (p : Result Error Round × Db)
        → transition_round (on_rounds during) id RoundStatus.resolved fields s.db ≡ p
        → IsClosed id s (elim p.0 [ ok round ↦ ok tt | err e ↦ err e ], record s { db = p.1 })
    go (ok r, db') e =
        let (before, found, edge, written, rest) =
          transition_round_moves (on_rounds during) id RoundStatus.resolved fields s.db r db' e in
        (
          write_round RoundStatus.resolved fields before,
          rw rest (
              find-update_self id (write_round RoundStatus.resolved fields) before
                (during s.db.rounds) (λ x. refl) found),
          refl,
          rw rest,
        )
    go (err x, db') e = tt

-- The commit keeps both.
committed :
    (start : Db) (during : List Round → List Round) (id : ℕ) (s : Settling)
    (p : Result Error (Unit {0}) × Settling) (db' : Db)
    → settlement_transaction start during p ≡ (ok Outcome.updated, db')
    → IsClosed id s p
    → (r : Round) × (find id db'.rounds ≡ some r)
      × (r.status ≡ RoundStatus.resolved)
      × (db'.users ≡ s.db.users)
unfolding settlement_transaction
committed start during id s (ok a, s') db' h (r, found, closed, users) =
    (r, ground arith, closed, ground arith)
committed start during id s (err e, s') db' h c = cc

module _ (api : DecimalApi) (around : Surroundings) (final_price : api.Decimal) (id : ℕ)
    (db : Db) where
  open around use {now, before_tx, during_tx}

  -- The database when the transaction starts.
  abbrev pub tx_start : Db
  tx_start = record db { rounds = before_tx db.rounds }

  -- A call that settles found the round LOCKED, and commits what its transaction did.
  pub resolve_round_settled :
      (db' : Db)
      → resolve_round api around final_price id db ≡ (ok Outcome.updated, db')
      → (r : Round) × (find id tx_start.rounds ≡ some r)
        × (r.status ≡ RoundStatus.locked)
        × ((settle_locked api around final_price id r tx_start).0 ≡ ok tt)
        × (settlement_transaction tx_start during_tx
              (settle_locked api around final_price id r tx_start)
            ≡ (ok Outcome.updated, db'))
  unfolding resolve_round settle_in_tx settlement_transaction
  resolve_round_settled db' h = elim (Option-cases (find id tx_start.rounds)) [
    | inl gone ↦ absurd (ground arith)
    | inr (r, e) ↦ (r, e, ground arith, ground arith, ground arith)
  ]

  abbrev pub closing : RoundData
  closing = record { end_price = some (api.to_number final_price); resolved_at = some now }

  -- What the payouts leave, before the status is written.
  abbrev pub paid : Round → Result Error (Unit {0}) × Settling
  paid r =
      by_mode api around final_price r.mode r (settleable id tx_start)
        (record { db = tx_start; tx_outbox = [] })

  -- The status write that follows the payouts.
  abbrev pub close_after : Result Error (Unit {0}) × Settling → Result Error (Unit {0}) × Settling
  close_after (ok a, s) = transition_in_tx during_tx id closing s
  close_after (err e, s) = (err e, s)

  close_after-IsClosed :
      (p : Result Error (Unit {0}) × Settling)
      → (close_after p).0 ≡ ok tt
      → (p.0 ≡ ok tt) × IsClosed id p.1 (close_after p)
  close_after-IsClosed (ok a, s) h = (refl, transition_in_tx-IsClosed during_tx id closing s)
  close_after-IsClosed (err e, s) h = cc

  pub settle_locked-close_after :
      (r : Round) → settle_locked api around final_price id r tx_start ≡ close_after (paid r)
  unfolding settle_locked
  settle_locked-close_after r = go (paid r)
    where
      go :
          (p : Result Error (Unit {0}) × Settling)
          → ◌≡◌ {A = Result Error (Unit {0}) × Settling}
              (elim p.0 [ ok a ↦ transition_in_tx during_tx id closing p.1 | err e ↦ (err e, p.1) ])
              (close_after p)
      go (ok a, s) = refl
      go (err e, s) = refl

  settle_locked-IsClosed :
      (r : Round)
      → (settle_locked api around final_price id r tx_start).0 ≡ ok tt
      → ((paid r).0 ≡ ok tt)
        × IsClosed id (paid r).1 (settle_locked api around final_price id r tx_start)
  settle_locked-IsClosed r h =
      rw settle_locked-close_after
        (close_after-IsClosed (paid r) (rw settle_locked-close_after at h))

  -- After a call that settled, the round is RESOLVED and the accounts are as the payouts left them.
  pub settled_round :
      (db' : Db)
      → resolve_round api around final_price id db ≡ (ok Outcome.updated, db')
      → (before : Round) × (find id tx_start.rounds ≡ some before)
        × (before.status ≡ RoundStatus.locked)
        × ((paid before).0 ≡ ok tt)
        × (after : Round) × (find id db'.rounds ≡ some after)
        × (after.status ≡ RoundStatus.resolved)
        × (db'.users ≡ (paid before).1.db.users)
  settled_round db' h =
      let (before, found, locked, went, commits) = resolve_round_settled db' h in
      let (payouts, closed) = settle_locked-IsClosed before went in
      let (after, there, resolved, users) =
        committed tx_start during_tx id (paid before).1 _ db' commits closed in
      (before, found, locked, payouts, after, there, resolved, users)

  -- A round that is not LOCKED when the call reads it is left alone, and so is everything else.
  pub resolve_round_not_locked :
      (r : Round)
      → find id db.rounds ≡ some r
      → r.status ≢ RoundStatus.locked
      → (resolve_round api around final_price id db).1 ≡ db
  unfolding resolve_round
  resolve_round_not_locked r e ne = ground arith

  -- A call that throws has moved no money: accounts and predictions are as before, and the rounds
  -- are as before or as other connections left them.
  pub resolve_round_throws :
      (e : Error) (db' : Db)
      → resolve_round api around final_price id db ≡ (err e, db')
      → (db'.users ≡ db.users)
        × (db'.predictions ≡ db.predictions)
        × ((db'.rounds ≡ db.rounds) ⊎ (db'.rounds ≡ during_tx (before_tx db.rounds)))
  unfolding resolve_round settle_in_tx settlement_transaction
  resolve_round_throws e db' h = ground arith

-- A round is settled once: when a call has settled it, a later call on the database that it left, at
-- any price and whatever happens around it, if the oracle's price is not stale, reports that it is
-- resolved already and changes nothing.
pub resolve_round_once :
    (api : DecimalApi) (around around' : Surroundings) (price price' : api.Decimal) (id : ℕ)
    (db db' : Db)
    → resolve_round api around price id db ≡ (ok Outcome.updated, db')
    → (around'.oracle_running && around'.price_stale) ≡ false
    → resolve_round api around' price' id db' ≡ (ok Outcome.already_resolved, db')
unfolding resolve_round
resolve_round_once api around around' price price' id db db' h fresh =
    let (before, _, _, _, after, found, resolved, _) = settled_round api around price id db db' h in
    ground arith
