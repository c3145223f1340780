-- ===== src/Tests/Predicting.antt =====
-- Witnesses of the theorems on predictions.
use xelma_backend.Base.{ok, ◌≡◌, refl, [], ◌∷◌, arith}
use xelma_backend.Schema.{
  Prediction, prediction_row, round_row, RoundStatus, GameMode, Side, ChainStatus, Db,
}
use xelma_backend.Decimals.FixedPoint.{fixed_point}
use xelma_backend.Predictions.{
  add_to_pools, Reservation, new_row, charge, reserve_body, take_stake, write_prediction, join_pool,
  write_reservation, check_pick, check_existing, reserve, submit_prediction, submit_batch,
  compensate_prediction, reconcile_predictions,
}
use xelma_backend.Predictions.Rows.{IsSound}
use xelma_backend.Predictions.Funds.{funds, IsInOrder}
use xelma_backend.Predictions.Booking.{Books, reserve-Books}
use xelma_backend.Predictions.Reversal.{IsReversed, reserve-compensate_prediction}
use xelma_backend.Predictions.Compensation.{compensate_prediction_once}
use xelma_backend.Predictions.Conservation.{submit_prediction-Conserves, submit_batch-Conserves}
use xelma_backend.Predictions.Sweep.{reconcile_predictions-Conserves}
use xelma_backend.Tests.Data.{
  alice, a_prediction, a_round, a_db, an_input, refusing_chain, a_config, a_view,
}

abbrev sent : Prediction
sent = a_prediction 21 2 50 Side.down ChainStatus.submitted

abbrev the_db : Db
the_db = a_db RoundStatus.active (sent ∷ [])

the_db-IsInOrder : IsInOrder the_db
unfolding IsSound
the_db-IsInOrder = (omega arith, refl, refl, tt)

submit_prediction-Conserves_example :
    IsInOrder (submit_prediction fixed_point an_input refusing_chain the_db).1
    × (funds (submit_prediction fixed_point an_input refusing_chain the_db).1 ≡ funds the_db)
submit_prediction-Conserves_example =
    submit_prediction-Conserves fixed_point an_input refusing_chain (λ db h. (h, refl)) the_db
      the_db-IsInOrder

submit_batch-Conserves_example :
    IsInOrder (submit_batch fixed_point ((an_input, refusing_chain) ∷ []) the_db).1
    × (funds (submit_batch fixed_point ((an_input, refusing_chain) ∷ []) the_db).1 ≡ funds the_db)
submit_batch-Conserves_example =
    submit_batch-Conserves fixed_point ((an_input, refusing_chain) ∷ []) ((λ db h. (h, refl)), tt)
      the_db the_db-IsInOrder

reserve-Books_example : Books fixed_point an_input the_db (reserve fixed_point 7 an_input the_db)
reserve-Books_example = reserve-Books fixed_point an_input the_db 7 the_db-IsInOrder

compensate_prediction_once_example :
    (compensate_prediction 9 21 (compensate_prediction 8 21 the_db).1).1
    ≡ (compensate_prediction 8 21 the_db).1
compensate_prediction_once_example = compensate_prediction_once 8 9 21 the_db

reconcile_predictions-Conserves_example :
    IsInOrder (reconcile_predictions a_config a_view 100 the_db).1
    × (funds (reconcile_predictions a_config a_view 100 the_db).1 ≡ funds the_db)
reconcile_predictions-Conserves_example =
    reconcile_predictions-Conserves a_config a_view 100 the_db the_db-IsInOrder

abbrev made : Reservation
made = record {
  prediction = new_row 7 an_input an_input.amount ChainStatus.pending the_db.next_id;
  user = charge an_input.amount alice;
  updated_round =
      add_to_pools an_input.side an_input.amount (a_round 5 GameMode.up_down RoundStatus.active);
}

abbrev after_made : Db
after_made = (reserve fixed_point 7 an_input the_db).1

it_is_made : reserve fixed_point 7 an_input the_db ≡ (ok made, after_made)
unfolding reserve reserve_body take_stake write_prediction join_pool write_reservation check_pick
    check_existing new_row add_to_pools
it_is_made = refl

reserve-compensate_prediction_example :
    IsReversed 9 5 made.prediction the_db (compensate_prediction 9 made.prediction.id after_made).1
reserve-compensate_prediction_example =
    reserve-compensate_prediction fixed_point 7 9 5 an_input the_db after_made made
      (a_round 5 GameMode.up_down RoundStatus.active) the_db-IsInOrder refl refl it_is_made
