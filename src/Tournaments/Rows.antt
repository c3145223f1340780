-- ===== src/Tournaments/Rows.antt =====
-- The tables of tournaments, their saga's transitions, and what its calls throw.
use xelma_backend.Base.{ℕ, Bool, true, false, List, [], ◌∷◌, Row}
use xelma_backend.Schema.{User, GameMode}

pub data TournamentStatus : Type 0 where
  upcoming active completed cancelled : TournamentStatus

abbrev pub tournament_status_eq : TournamentStatus → TournamentStatus → Bool
tournament_status_eq TournamentStatus.upcoming TournamentStatus.upcoming = true
tournament_status_eq TournamentStatus.active TournamentStatus.active = true
tournament_status_eq TournamentStatus.completed TournamentStatus.completed = true
tournament_status_eq TournamentStatus.cancelled TournamentStatus.cancelled = true
tournament_status_eq _ _ = false

-- `TOURNAMENT_LIFECYCLE_TRANSITIONS`, by destination.
abbrev pub tournament_sources_for : TournamentStatus → List TournamentStatus
tournament_sources_for TournamentStatus.upcoming = []
tournament_sources_for TournamentStatus.active = TournamentStatus.upcoming ∷ []
tournament_sources_for TournamentStatus.completed = TournamentStatus.active ∷ []
tournament_sources_for TournamentStatus.cancelled =
    TournamentStatus.upcoming ∷ TournamentStatus.active ∷ []

abbrev includes : TournamentStatus → List TournamentStatus → Bool
includes s [] = false
includes s (t ∷ ts) = elim (tournament_status_eq s t) [ true ↦ true | false ↦ includes s ts ]

abbrev pub is_legal_tournament_transition : (from to : TournamentStatus) → Bool
is_legal_tournament_transition from to = includes from (tournament_sources_for to)

pub record Tournament : Type 0 where
  pub id : ℕ
  pub mode : GameMode
  pub status : TournamentStatus
  pub entry_fee : ℕ
  pub prize_pool : ℕ
  pub max_participants : ℕ
  pub current_participants : ℕ
  pub start_time : ℕ
  pub end_time : ℕ
  pub rounds : ℕ

pub record TournamentParticipant : Type 0 where
  pub id : ℕ
  pub tournament_id : ℕ
  pub user_id : ℕ

-- A WIN row of the table of transactions, with the rank that its description names.
pub record WinTransaction : Type 0 where
  pub user_id : ℕ
  pub amount : ℕ
  pub rank : ℕ

-- The tables that the tournament service writes, and the identifiers made up so far.
pub record Hall : Type 0 where
  pub users : List User
  pub tournaments : List Tournament
  pub participants : List TournamentParticipant
  pub transactions : List WinTransaction
  pub next_id : ℕ

instance abbrev pub tournament_row : Row Tournament
tournament_row = record { key = λ t. t.id }

pub data TournamentError : Type 0 where
  not_found is_full already_joined is_closed : TournamentError
  bad_capacity bad_rounds bad_times : TournamentError
  invalid_state : (from to : TournamentStatus) → TournamentError
  record_not_found : TournamentError
