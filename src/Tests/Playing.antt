-- ===== src/Tests/Playing.antt =====
-- A tournament of two players: joins, a settlement, and two settlements at once.
use xelma_backend.Base.{
  ℕ, ◌≡◌, ◌≤◌, ◌+◌, ◌*◌, for_each, refl, Option, some, List, [], ◌∷◌, ok, arith, map,
}
use xelma_backend.Schema.{GameMode}
use xelma_backend.Tournaments.{
  TournamentStatus, Tournament, TournamentParticipant, Hall, UserStats, Ranked, tally_standings,
  compute_allocations, TournamentInput, total_allocated, settle_tournament, tournament_row,
  TournamentPayoutResult, pay_allocation,
}
use xelma_backend.Tournaments.Payout.{allocations_near_pool, balances}
use xelma_backend.Tournaments.Settling.{Settles, settle_tournament-Settles}
use xelma_backend.Tournaments.Twice.{undisturbed, overtaken_by, settled_twice}
use xelma_backend.Tournaments.Order.{swapped, tally_standings-Reordered}
use xelma_backend.Tournaments.Roster.{HasRosters}
use xelma_backend.Tournaments.Capacity.{
  TournamentCall, creates, joins, locks, settles, run_tournament_calls,
  run_tournament_calls-HasRosters,
}
use xelma_backend.Tests.Data.{alice, bob}

abbrev a_tournament : Tournament
a_tournament = record {
  id = 1;
  mode = GameMode.up_down;
  status = TournamentStatus.active;
  entry_fee = 5;
  prize_pool = 101;
  max_participants = 2;
  current_participants = 2;
  start_time = 0;
  end_time = 9;
  rounds = 1;
}

abbrev entry_of : (id user : ℕ) → TournamentParticipant
entry_of id user = record { id = id; tournament_id = 1; user_id = user }

abbrev a_hall : Hall
a_hall = record {
  users = alice ∷ bob ∷ [];
  tournaments = a_tournament ∷ [];
  participants = entry_of 2 1 ∷ entry_of 3 2 ∷ [];
  transactions = [];
  next_id = 4;
}

abbrev empty_hall : Hall
empty_hall = record a_hall { tournaments = []; participants = []; next_id = 0 }

-- Bob leads.
abbrev some_stats : ℕ → Option UserStats
some_stats user = some (record { total_earnings = 10 * user; correct_predictions = 1 })

abbrev an_announcement : TournamentInput
an_announcement = record {
  mode = GameMode.up_down;
  entry_fee = 5;
  prize_pool = 101;
  max_participants = 1;
  start_time = 0;
  end_time = 9;
  rounds = 1;
}

abbrev alone_here : Hall → Hall
alone_here h = h

-- Bob finds the tournament full.
abbrev a_season : List TournamentCall
a_season =
    creates an_announcement
    ∷ joins alone_here 1 0
    ∷ joins alone_here 2 0
    ∷ locks alone_here 0
    ∷ settles some_stats undisturbed 0
    ∷ []

empty_hall-HasRosters : HasRosters empty_hall
empty_hall-HasRosters = record {
  counted = λ id t there. cc;
  made_up = λ id t there. cc;
  unused = λ id le. refl;
}

run_tournament_calls-HasRosters_example : HasRosters (run_tournament_calls a_season empty_hall)
run_tournament_calls-HasRosters_example =
    run_tournament_calls-HasRosters a_season empty_hall
      (tt, (λ h w. w, (λ h w. w, (λ h w. w, ((λ h w. w, λ h w. w), tt))))) empty_hall-HasRosters

settle_tournament-Settles_example :
    Settles some_stats undisturbed 1 a_hall (settle_tournament some_stats undisturbed 1 a_hall)
settle_tournament-Settles_example = settle_tournament-Settles some_stats undisturbed 1 a_hall

abbrev a_standing : (rank user : ℕ) → Ranked
a_standing rank user = record {
  rank = rank;
  standing = record { participant_id = user; user_id = user; total_earnings = 0; total_wins = 0 };
}

allocations_near_pool_example :
    (total_allocated (compute_allocations 3 (a_standing 1 7 ∷ a_standing 2 8 ∷ a_standing 3 9 ∷ []))
      ≤ 3 + 1)
    × (3
        ≤ total_allocated
            (compute_allocations 3 (a_standing 1 7 ∷ a_standing 2 8 ∷ a_standing 3 9 ∷ []))
          + 1)
allocations_near_pool_example =
    allocations_near_pool 3 (a_standing 1 7) (a_standing 2 8 ∷ a_standing 3 9 ∷ [])
      (λ e. omega arith)

-- A pool of three units is shared out as 2, 1 and 1.
three_units :
    map
      (λ a. a.allocation)
      (compute_allocations 3 (a_standing 1 7 ∷ a_standing 2 8 ∷ a_standing 3 9 ∷ []))
    ≡ 2 ∷ 1 ∷ 1 ∷ []
unfolding compute_allocations
three_units = refl

tally_standings-Reordered_example :
    tally_standings some_stats 1 (entry_of 2 1 ∷ entry_of 3 2 ∷ [])
    ≡ tally_standings some_stats 1 (entry_of 3 2 ∷ entry_of 2 1 ∷ [])
tally_standings-Reordered_example =
    tally_standings-Reordered some_stats 1 (entry_of 2 1 ∷ entry_of 3 2 ∷ [])
      (entry_of 3 2 ∷ entry_of 2 1 ∷ []) (swapped (λ e. omega arith))

abbrev the_result : TournamentPayoutResult
the_result = record {
  tournament_id = 1;
  total_paid = 101;
  winners_count = 2;
  allocations =
      record { rank = 1; user_id = 2; allocation = 63 }
      ∷ record { rank = 2; user_id = 1; allocation = 38 }
      ∷ [];
}

abbrev after_one : Hall
after_one = (settle_tournament some_stats undisturbed 1 a_hall).1

abbrev after_two : Hall
after_two = (settle_tournament some_stats (overtaken_by after_one) 1 a_hall).1

settles_once : settle_tournament some_stats undisturbed 1 a_hall ≡ (ok the_result, after_one)
unfolding settle_tournament for_each compute_allocations tally_standings pay_allocation
settles_once = refl

settles_again :
    settle_tournament some_stats (overtaken_by after_one) 1 a_hall ≡ (ok the_result, after_two)
unfolding settle_tournament for_each compute_allocations tally_standings pay_allocation
settles_again = refl

settled_twice_example :
    (the_result.total_paid ≡ the_result.total_paid)
    × (balances after_two ≡ balances a_hall + 101 + 101)
settled_twice_example =
    settled_twice some_stats 1 a_hall after_one after_two the_result the_result settles_once
      settles_again
