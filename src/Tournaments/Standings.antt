-- ===== src/Tournaments/Standings.antt =====
-- `compareTournamentStandings` of src/types/tournament.types.ts and `tallyStandings` of the service.
-- The order of identifiers stands for `localeCompare`; a user joins a tournament once, so the map by
-- user has a standing for each participant.
use xelma_backend.Base.{
  ℕ, ◌+◌, Bool, true, false, Option, none, some, List, [], ◌∷◌, ◌==◌, compare, Ordering, filter,
  map,
}
use xelma_backend.Tournaments.Rows.{TournamentParticipant}

pub record UserStats : Type 0 where
  pub total_earnings : ℕ
  pub correct_predictions : ℕ

pub record TournamentStanding : Type 0 where
  pub participant_id : ℕ
  pub user_id : ℕ
  pub total_earnings : ℕ
  pub total_wins : ℕ

-- A standing with its rank, which counts from 1.
pub record Ranked : Type 0 where
  pub rank : ℕ
  pub standing : TournamentStanding

abbrev later_wins_first : Ordering → Ordering → Ordering
later_wins_first Ordering.eq o = o
later_wins_first c o = c

-- More earnings first, then more wins, then the smaller identifier.
abbrev pub compare_tournament_standings : (a b : TournamentStanding) → Ordering
compare_tournament_standings a b = later_wins_first (compare b.total_earnings a.total_earnings) (
    later_wins_first (compare b.total_wins a.total_wins)
      (compare a.participant_id b.participant_id))

abbrev pub goes_after : (a b : TournamentStanding) → Bool
goes_after a b = elim (compare_tournament_standings a b) [ Ordering.gt ↦ true | _ ↦ false ]

abbrev pub insert_standing : TournamentStanding → List TournamentStanding → List TournamentStanding
insert_standing a [] = a ∷ []
insert_standing a (b ∷ bs) = elim (goes_after a b) [
  | true ↦ b ∷ insert_standing a bs
  | false ↦ a ∷ b ∷ bs
]

abbrev pub sort_standings : List TournamentStanding → List TournamentStanding
sort_standings [] = []
sort_standings (a ∷ xs) = insert_standing a (sort_standings xs)

abbrev pub rank_from : (rank : ℕ) → List TournamentStanding → List Ranked
rank_from rank [] = []
rank_from rank (a ∷ xs) = record { rank = rank; standing = a } ∷ rank_from (rank + 1) xs

module _ (stats_of : (user_id : ℕ) → Option UserStats) where
  abbrev standing_by : Option UserStats → TournamentParticipant → TournamentStanding
  standing_by none p = record {
    participant_id = p.id;
    user_id = p.user_id;
    total_earnings = 0;
    total_wins = 0;
  }
  standing_by (some s) p = record {
    participant_id = p.id;
    user_id = p.user_id;
    total_earnings = s.total_earnings;
    total_wins = s.correct_predictions;
  }

  abbrev pub standing_of : TournamentParticipant → TournamentStanding
  standing_of p = standing_by (stats_of p.user_id) p

  -- `tallyStandings`, of the participants of one tournament.
  unfoldable pub tally_standings : (tournament_id : ℕ) → List TournamentParticipant → List Ranked
  tally_standings tournament_id ps =
      rank_from 1
        (sort_standings (map standing_of (filter (λ p. p.tournament_id == tournament_id) ps)))
