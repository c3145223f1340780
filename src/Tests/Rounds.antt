-- ===== src/Tests/Rounds.antt =====
-- Witnesses of the lifecycle and the breaker theorems.
use xelma_backend.Base.{ℕ, ◌≡◌, ◌≤◌, ◌<◌, ◌⊎◌, refl, some, List, [], ◌∷◌, ok, find, update, arith}
use xelma_backend.Schema.{Round, round_row, RoundStatus, GameMode, Db}
use xelma_backend.Lifecycle.{
  no_data, write_round, transition_round, compare_and_set, is_legal_round_transition,
  allowed_sources_for,
}
use xelma_backend.Lifecycle.Graph.{◌⟶◌, ◌⟶*◌}
use xelma_backend.Lifecycle.Safety.{
  Request, run, settlements, run-⟶*, settled_at_most_once, transition_round_moves,
}
use xelma_backend.Breaker.{BreakerState, Options, before_call, on_failure, trip, new_breaker}
use xelma_backend.Breaker.Runs.{Happening, run_breaker, happen, never_locked_out}
use xelma_backend.Tests.Data.{both, a_round, a_db}

abbrev the_db : Db
the_db = a_db RoundStatus.active both

abbrev the_round : Round
the_round = a_round 5 GameMode.up_down RoundStatus.active

-- Two settlements race after a lock.
abbrev race : List Request
race =
    record { round_id = 5; to = RoundStatus.locked; fields = no_data }
    ∷ record { round_id = 5; to = RoundStatus.resolved; fields = no_data }
    ∷ record { round_id = 5; to = RoundStatus.resolved; fields = no_data }
    ∷ []

settled_at_most_once_example : settlements 5 race the_db ≤ 1
settled_at_most_once_example = settled_at_most_once race the_db 5

run-⟶*_example :
    (r : Round) × (find 5 (run race the_db).rounds ≡ some r) × (RoundStatus.active ⟶* r.status)
run-⟶*_example = run-⟶* race the_db 5 the_round refl

abbrev locked_db : Db
locked_db = record (the_db) {
  rounds = update 5 (write_round RoundStatus.locked no_data) the_db.rounds;
}

abbrev locked_round : Round
locked_round = write_round RoundStatus.locked no_data the_round

it_locks :
    transition_round (λ db. db) 5 RoundStatus.locked no_data the_db ≡ (ok locked_round, locked_db)
unfolding transition_round compare_and_set is_legal_round_transition allowed_sources_for
it_locks = refl

transition_round_moves_example :
    (before : Round) × (find 5 the_db.rounds ≡ some before)
    × (before.status ⟶ RoundStatus.locked)
    × (locked_round ≡ write_round RoundStatus.locked no_data before)
    × (locked_db ≡ record (the_db) {
      rounds = update 5 (write_round RoundStatus.locked no_data) the_db.rounds;
    })
transition_round_moves_example =
    transition_round_moves (λ db. db) 5 RoundStatus.locked no_data the_db locked_round locked_db
      it_locks

abbrev the_options : Options
the_options = record { failure_threshold = 2; open_backoff = 30; half_open_max_calls = 1 }

abbrev two_failures : List Happening
two_failures = Happening.fails 3 ∷ Happening.fails 5 ∷ []

it_opens : (run_breaker the_options two_failures new_breaker).state ≡ BreakerState.opened
unfolding run_breaker happen on_failure trip
it_opens = refl

never_locked_out_example :
    (t : ℕ) × ((run_breaker the_options two_failures new_breaker).next_attempt_at ≡ some t)
    × ((40 < t)
        ⊎ ((before_call the_options 40 (run_breaker the_options two_failures new_breaker)).0
            ≡ ok tt))
never_locked_out_example =
    never_locked_out the_options (omega arith) (omega arith) two_failures 40 it_opens
