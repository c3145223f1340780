-- ===== src/Resolution/Payment.antt =====
-- A whole call of `resolveRound`, from the database it starts on to the accounts it commits.
use xelma_backend.Base.{ℕ, ◌≡◌, refl, some, List, [], Result, ok, err, find}
use xelma_backend.Schema.{User, Prediction, Round, round_row, RoundStatus, GameMode, Db, Error}
use xelma_backend.Decimals.{DecimalApi}
use xelma_backend.Lifecycle.{Outcome}
use xelma_backend.PriceRange.{RoundRange, parse_round_price_ranges, sort_by_min, winning_range}
use xelma_backend.Resolution.Writes.{Settling}
use xelma_backend.Resolution.Resolve.{Surroundings, settleable, by_mode, resolve_round}
use xelma_backend.Resolution.Accounts.{Credited}
use xelma_backend.Resolution.Awards.{
  up_down_award, legends_award, resolve_up_down_round-Credited, resolve_legends_round-Credited,
}
use xelma_backend.Resolution.Safety.{tx_start, settled_round}

module _ (api : DecimalApi) (around : Surroundings) (final_price : api.Decimal) where
  -- The awards of a round by its mode: a price that did not move and a price in no range refund.
  unfoldable pub PaidByMode :
      GameMode → Round → (ps : List Prediction) (before after : List User) → Type 0
  PaidByMode GameMode.up_down round ps before after =
      Credited
        (up_down_award api around.now round (api.cmp final_price (api.dec round.start_price))) ps
        before after
  PaidByMode GameMode.legends round ps before after =
      (ranges : List RoundRange) × (parse_round_price_ranges round.price_ranges ≡ some ranges)
      × Credited
          (legends_award api around.now round (winning_range api final_price (sort_by_min ranges))
            (sort_by_min ranges))
          ps before after

  by_mode-PaidByMode :
      (mode : GameMode) (round : Round) (ps : List Prediction) (s : Settling)
      (p : Result Error (Unit {0}) × Settling)
      → by_mode api around final_price mode round ps s ≡ p
      → p.0 ≡ ok tt
      → (after : List User) → after ≡ p.1.db.users
      → PaidByMode mode round ps s.db.users after
  unfolding PaidByMode by_mode
  by_mode-PaidByMode GameMode.up_down round ps s (ok a, s') e h after same = rw same (
      resolve_up_down_round-Credited api around.now round around.fail_closed around.chain_failure
        final_price ps s s' e)
  by_mode-PaidByMode GameMode.legends round ps s (ok a, s') e h after same =
      rw same (resolve_legends_round-Credited api around.now round final_price ps s s' e)
  by_mode-PaidByMode mode round ps s (err x, s') e h after same = cc

-- A call that settles a round found it LOCKED and leaves it RESOLVED, and between the database of
-- before and the one it commits every account is credited exactly the awards of its settleable
-- predictions, by the mode of the round, whatever other connections do to the rounds.
pub resolve_round-Pays :
    (api : DecimalApi) (around : Surroundings) (final_price : api.Decimal) (id : ℕ) (db db' : Db)
    → resolve_round api around final_price id db ≡ (ok Outcome.updated, db')
    → (before : Round) × (find id (around.before_tx db.rounds) ≡ some before)
      × (before.status ≡ RoundStatus.locked)
      × PaidByMode api around final_price before.mode before (settleable id db) db.users db'.users
      × (after : Round) × (find id db'.rounds ≡ some after)
      × (after.status ≡ RoundStatus.resolved)
unfolding PaidByMode settleable
resolve_round-Pays api around final_price id db db' h =
    let (before, found, locked, went, after, there, resolved, users) =
      settled_round api around final_price id db db' h in
    (
      before,
      found,
      locked,
      by_mode-PaidByMode api around final_price before.mode before (settleable id db)
          (record { db = tx_start api around final_price id db; tx_outbox = [] }) _ refl went
          db'.users users,
      after,
      there,
      resolved,
    )
