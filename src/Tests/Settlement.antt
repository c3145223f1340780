-- ===== src/Tests/Settlement.antt =====
-- Witnesses of the settlement theorems.
use xelma_backend.Base.{
  ◌≡◌, ◌⊎◌, ◌≤◌, ◌+◌, refl, none, some, List, [], ◌∷◌, ok, err, find, arith, Ordering, true, false,
  for_each, update, ◌≢◌,
}
use xelma_backend.Schema.{
  Round, round_row, RoundStatus, GameMode, Side, Prediction, ChainStatus, Db, Error,
}
use xelma_backend.Decimals.{calculate_payout}
use xelma_backend.Decimals.FixedPoint.{fixed_point, fixed_point-DecimalLaws}
use xelma_backend.Lifecycle.{
  Outcome, transition_round, compare_and_set, is_legal_round_transition, allowed_sources_for,
}
use xelma_backend.Bets.{event, create_event, resolve_bet}
use xelma_backend.Resolution.{
  Surroundings, Settling, settleable, transition_in_tx, settlement_transaction, by_mode,
  settle_locked, settle_in_tx, resolve_round, update_prediction, update_user, close_bet,
  queue_event, apply_chain_result, settle_one, payout_for, pay_side, by_movement, announce,
  resolve_up_down_round, resolve_legends_round, pay_range, sum_pools, settle_pick,
}
use xelma_backend.Resolution.Solvency.{IsCovered, stakes_on, resolve_up_down_round_solvent}
use xelma_backend.PriceRange.{
  RoundRange, parse_round_price_ranges, read_round_ranges, read_round_range,
  validate_user_price_range, winning_range, sort_by_min,
}
use xelma_backend.Resolution.Accounts.{Credited, total_balance}
use xelma_backend.Resolution.Awards.{
  up_down_award, resolve_up_down_round-Credited, legends_award, resolve_legends_round-Credited,
}
use xelma_backend.Resolution.Race.{race_loser_pays_nobody}
use xelma_backend.Resolution.Payment.{PaidByMode, resolve_round-Pays}
use xelma_backend.Resolution.Safety.{resolve_round_once, resolve_round_throws}
use xelma_backend.Tests.Data.{both, a_round, a_prediction, a_db, calm, failing}

abbrev locked_db : Db
locked_db = a_db RoundStatus.locked both

abbrev settled_db : Db
settled_db = (resolve_round fixed_point calm 12 5 locked_db).1

it_settles : resolve_round fixed_point calm 12 5 locked_db ≡ (ok Outcome.updated, settled_db)
unfolding resolve_round settle_in_tx settlement_transaction settle_locked by_mode settleable
    transition_in_tx transition_round compare_and_set is_legal_round_transition allowed_sources_for
    resolve_up_down_round apply_chain_result by_movement pay_side settle_one payout_for
    calculate_payout update_prediction update_user close_bet announce queue_event event for_each
    resolve_bet create_event
it_settles = refl

resolve_round-Pays_example :
    (before : Round) × (find 5 locked_db.rounds ≡ some before)
    × (before.status ≡ RoundStatus.locked)
    × PaidByMode fixed_point calm 12 before.mode before
        (settleable 5 locked_db)
        locked_db.users
        settled_db.users
    × (after : Round) × (find 5 settled_db.rounds ≡ some after)
    × (after.status ≡ RoundStatus.resolved)
resolve_round-Pays_example =
    resolve_round-Pays fixed_point calm 12 5 locked_db settled_db it_settles

resolve_round_once_example :
    resolve_round fixed_point calm 9 5 settled_db ≡ (ok Outcome.already_resolved, settled_db)
resolve_round_once_example =
    resolve_round_once fixed_point calm calm 12 9 5 locked_db settled_db it_settles refl

abbrev failed_db : Db
failed_db = (resolve_round fixed_point failing 12 5 locked_db).1

abbrev chain_refusal : Error
chain_refusal = Error.chain (record { message = "no"; is_timeout = false })

it_throws : resolve_round fixed_point failing 12 5 locked_db ≡ (err chain_refusal, failed_db)
unfolding resolve_round settle_in_tx settlement_transaction settle_locked by_mode settleable
    resolve_up_down_round apply_chain_result
it_throws = refl

resolve_round_throws_example :
    (failed_db.users ≡ locked_db.users)
    × (failed_db.predictions ≡ locked_db.predictions)
    × ((failed_db.rounds ≡ locked_db.rounds) ⊎ (failed_db.rounds ≡ locked_db.rounds))
resolve_round_throws_example =
    resolve_round_throws fixed_point failing 12 5 locked_db chain_refusal failed_db it_throws

abbrev start : Settling
start = record { db = locked_db; tx_outbox = [] }

abbrev the_round : Round
the_round = a_round 5 GameMode.up_down RoundStatus.locked

abbrev paid_out : Settling
paid_out = (resolve_up_down_round fixed_point 99 the_round true none 12 both start).1

it_pays : resolve_up_down_round fixed_point 99 the_round true none 12 both start ≡ (ok tt, paid_out)
unfolding resolve_up_down_round apply_chain_result by_movement pay_side settle_one payout_for
    calculate_payout update_prediction update_user close_bet announce queue_event event for_each
    resolve_bet create_event
it_pays = refl

resolve_up_down_round-Credited_example :
    Credited
      (up_down_award fixed_point 99 the_round Ordering.gt)
      both
      locked_db.users
      paid_out.db.users
resolve_up_down_round-Credited_example =
    resolve_up_down_round-Credited fixed_point 99 the_round true none 12 both start paid_out it_pays

the_pools_cover : IsCovered the_round both
unfolding stakes_on
the_pools_cover = record {
  sides = (refl, (refl, tt));
  up_covered = omega arith;
  down_covered = omega arith;
  pools_small = omega arith;
}

resolve_up_down_round_solvent_example :
    total_balance paid_out.db.users ≤ total_balance locked_db.users + 100 + 50 + 2
resolve_up_down_round_solvent_example =
    resolve_up_down_round_solvent fixed_point fixed_point-DecimalLaws 99 the_round true none 12 both
      start paid_out the_pools_cover it_pays

abbrev legends_round : Round
legends_round = a_round 6 GameMode.legends RoundStatus.locked

abbrev picked_low : Prediction
picked_low = record (a_prediction 23 2 30 Side.up ChainStatus.not_required) {
  round_id = 6;
  price_range = some (record { min = some 10; max = some 20; pool = none });
}

abbrev legends_start : Settling
legends_start = record { db = a_db RoundStatus.locked (picked_low ∷ []); tx_outbox = [] }

abbrev legends_paid : Settling
legends_paid =
    (resolve_legends_round fixed_point 99 legends_round 12 (picked_low ∷ []) legends_start).1

legends_pays :
    resolve_legends_round fixed_point 99 legends_round 12 (picked_low ∷ []) legends_start
    ≡ (ok tt, legends_paid)
unfolding resolve_legends_round pay_range sum_pools settle_pick parse_round_price_ranges
    read_round_ranges read_round_range validate_user_price_range winning_range sort_by_min
    settle_one payout_for calculate_payout update_prediction update_user close_bet announce
    queue_event event for_each resolve_bet create_event
legends_pays = refl

resolve_legends_round-Credited_example :
    (rs : List RoundRange) × (parse_round_price_ranges legends_round.price_ranges ≡ some rs)
    × Credited
        (legends_award fixed_point 99 legends_round
          (winning_range fixed_point 12 (sort_by_min rs))
          (sort_by_min rs))
        (picked_low ∷ [])
        legends_start.db.users
        legends_paid.db.users
resolve_legends_round-Credited_example =
    resolve_legends_round-Credited fixed_point 99 legends_round 12 (picked_low ∷ []) legends_start
      legends_paid legends_pays

-- Another connection resolves the round before the status write.
abbrev rival : Surroundings
rival = record (calm) {
  during_tx = λ rs. update 5 (λ r. record r { status = RoundStatus.resolved }) rs;
}

race_loser_pays_nobody_example :
    ((resolve_round fixed_point rival 12 5 locked_db).0 ≢ ok Outcome.updated)
    × ((resolve_round fixed_point rival 12 5 locked_db).1.users ≡ locked_db.users)
    × ((resolve_round fixed_point rival 12 5 locked_db).1.predictions ≡ locked_db.predictions)
race_loser_pays_nobody_example =
    race_loser_pays_nobody fixed_point rival 12 5 locked_db
      (a_round 5 GameMode.up_down RoundStatus.resolved) refl (λ e. cc)
