-- ===== src/Tests/Betting.antt =====
-- Witnesses of the theorems on bets.
use xelma_backend.Base.{List, ◌≡◌, refl, true, false, none, some, [], ◌∷◌, ok, err, arith}
use xelma_backend.Schema.{bet_row, BetStatus, RoundStatus, GameMode, Side, Db, ChainError}
use xelma_backend.Bets.{
  reconcile_bet, resolve_bet, fail_bet, resolve_row, BetInput, record_bet, resolve_round_id,
  create_event, event,
}
use xelma_backend.Bets.Laws.{
  ReconcileAnnounced, ResolveAnnounced, FailAnnounced, bet_status-Announced,
}
use xelma_backend.Bets.Runs.{
  BetCall, make_bet_calls, AnnouncesOnce, resolutions, make_bet_calls-AnnouncesOnce,
}
use xelma_backend.Bets.Placement.{
  Recorded, placing_error, record_bet-Recorded, record_bet_failure_rolls_back,
}
use xelma_backend.Tests.Data.{a_bet, a_db}

abbrev the_db : Db
the_db = a_db RoundStatus.active []

abbrev closed_db : Db
closed_db = record (the_db) { bets = a_bet BetStatus.resolved ∷ [] }

abbrev some_calls : List BetCall
some_calls =
    BetCall.resolve 9 31 true 7
    ∷ BetCall.fail 10 31 "late"
    ∷ BetCall.resolve 11 31 false 0
    ∷ BetCall.reconcile 12 31 5
    ∷ []

make_bet_calls-AnnouncesOnce_example : AnnouncesOnce 31 the_db (make_bet_calls some_calls the_db)
make_bet_calls-AnnouncesOnce_example = make_bet_calls-AnnouncesOnce some_calls 31 the_db

announced_once : resolutions 31 (make_bet_calls some_calls the_db) ≡ 1
unfolding make_bet_calls reconcile_bet resolve_bet fail_bet resolve_row create_event event
announced_once = refl

bet_status-Announced_example :
    ReconcileAnnounced 9 31 31 (a_bet BetStatus.confirmed) the_db refl 5
    × ResolveAnnounced 9 31 31 (a_bet BetStatus.confirmed) the_db refl true 7
    × FailAnnounced 9 31 31 (a_bet BetStatus.confirmed) the_db refl "no"
bet_status-Announced_example =
    bet_status-Announced 9 31 31 (a_bet BetStatus.confirmed) the_db refl 5 7 true "no"

abbrev an_input : BetInput
an_input = record {
  address = 11;
  amount = 60;
  side = some Side.up;
  predicted_price = none;
  round_id = none;
}

abbrev a_failure : ChainError
a_failure = record { message = "no"; is_timeout = false }

record_bet-Recorded_example : Recorded an_input (
    record_bet 9 false GameMode.up_down
      (ok (record { state = "sent"; tx_hash = some 4 }))
      an_input
      the_db)
record_bet-Recorded_example =
    record_bet-Recorded 9 false GameMode.up_down (ok (record { state = "sent"; tx_hash = some 4 }))
      an_input the_db (omega arith, tt)

record_bet_failure_rolls_back_example :
    record_bet 9 false GameMode.up_down (err a_failure) an_input the_db
    ≡ (err (placing_error (resolve_round_id GameMode.up_down none the_db).0 a_failure), the_db)
record_bet_failure_rolls_back_example =
    record_bet_failure_rolls_back 9 GameMode.up_down a_failure an_input the_db
