-- ===== src/Tournaments/Calls.antt =====
-- The calls of the tournament service that write. What others commit between a call's reads and
-- its writes is an argument.
use xelma_backend.Base.{
  ℕ, ◌+◌, Bool, true, false, Option, none, some, List, [], ◌∷◌, ◌++◌, Result, ok, err, Action, pure,
  find, find_first, update, leb, ltb, ◌==◌, ◌&&◌, if◌then◌else◌, for_each, transaction, ◌>>◌,
  is_some, sum_by, length,
}
use xelma_backend.Schema.{User, user_row, GameMode}
use xelma_backend.Tournaments.Rows.{
  TournamentStatus, is_legal_tournament_transition, Tournament, tournament_row,
  TournamentParticipant, Hall, TournamentError,
}
use xelma_backend.Tournaments.Standings.{UserStats, tally_standings}
use xelma_backend.Tournaments.Allocation.{TournamentPayoutAllocation, compute_allocations}

abbrev pub Call : Type 0 → Type 0
Call A = Action TournamentError Hall A

-- `assertJoinable`
abbrev pub is_joinable : TournamentStatus → Bool
is_joinable TournamentStatus.completed = false
is_joinable TournamentStatus.cancelled = false
is_joinable _ = true

abbrev pub is_entry : (user tournament : ℕ) → TournamentParticipant → Bool
is_entry user tournament p = p.tournament_id == tournament && p.user_id == user

abbrev pub one_more : Tournament → Tournament
one_more t = record t { current_participants = t.current_participants + 1 }

abbrev pub add_entry : (user tournament : ℕ) → Hall → Hall
add_entry user tournament h = record h {
  tournaments = update tournament one_more h.tournaments;
  participants =
      h.participants ++ record { id = h.next_id; tournament_id = tournament; user_id = user } ∷ [];
  next_id = h.next_id + 1;
}

-- The checks of the transaction, under the lock on the tournament's row.
abbrev pub join_checks : (user tournament : ℕ) → Option Tournament → Hall → Option TournamentError
join_checks user tournament none h = some TournamentError.not_found
join_checks user tournament (some t) h =
    if is_joinable t.status
    then if leb t.max_participants t.current_participants
      then some TournamentError.is_full
      else if is_some (find_first (is_entry user tournament) h.participants)
      then some TournamentError.already_joined
      else none
    else some TournamentError.is_closed

abbrev pub current_of : Option Tournament → ℕ
current_of none = 0
current_of (some t) = t.current_participants

abbrev pub join_in_tx : (user tournament : ℕ) → Call ℕ
join_in_tx user tournament h =
    elim (join_checks user tournament (find tournament h.tournaments) h) [
      | some e ↦ (err e, h)
      | none ↦ (
        ok (current_of (find tournament (add_entry user tournament h).tournaments)),
        add_entry user tournament h,
      )
    ]

-- `joinTournament`
unfoldable pub join_tournament : (meanwhile : Hall → Hall) (user tournament : ℕ) → Call ℕ
join_tournament meanwhile user tournament h = elim (find tournament h.tournaments) [
  | none ↦ (err TournamentError.not_found, h)
  | some t ↦
      if is_joinable t.status
      then join_in_tx user tournament (meanwhile h)
      else (err TournamentError.is_closed, h)
]

pub record TournamentInput : Type 0 where
  pub mode : GameMode
  pub entry_fee : ℕ
  pub prize_pool : ℕ
  pub max_participants : ℕ
  pub start_time : ℕ
  pub end_time : ℕ
  pub rounds : ℕ

abbrev pub new_tournament : (id : ℕ) → TournamentInput → Tournament
new_tournament id i = record {
  id = id;
  mode = i.mode;
  status = TournamentStatus.upcoming;
  entry_fee = i.entry_fee;
  prize_pool = i.prize_pool;
  max_participants = i.max_participants;
  current_participants = 0;
  start_time = i.start_time;
  end_time = i.end_time;
  rounds = i.rounds;
}

-- `createTournament`, which returns the new row.
unfoldable pub create_tournament : TournamentInput → Call Tournament
create_tournament i h =
    if ltb i.max_participants 1
    then (err TournamentError.bad_capacity, h)
    else if ltb i.rounds 1
    then (err TournamentError.bad_rounds, h)
    else if leb i.end_time i.start_time
    then (err TournamentError.bad_times, h)
    else (
      ok (new_tournament h.next_id i),
      record h {
        tournaments = h.tournaments ++ new_tournament h.next_id i ∷ [];
        next_id = h.next_id + 1;
      },
    )

-- `transitionTournament`: a check, and the row that was read.
abbrev pub transition_tournament :
    (tournament : ℕ) (to : TournamentStatus) → Hall → Result TournamentError Tournament
transition_tournament tournament to h = elim (find tournament h.tournaments) [
  | none ↦ err TournamentError.not_found
  | some t ↦
      if is_legal_tournament_transition t.status to
      then ok t
      else err (TournamentError.invalid_state t.status to)
]

abbrev pub with_status : TournamentStatus → Tournament → Tournament
with_status s t = record t { status = s }

-- `tournament.update({ where: { id }, data: { status } })`
abbrev pub set_status : (tournament : ℕ) → TournamentStatus → Call (Unit {0})
set_status tournament s h = elim (find tournament h.tournaments) [
  | none ↦ (err TournamentError.record_not_found, h)
  | some t ↦ (ok tt, record h { tournaments = update tournament (with_status s) h.tournaments })
]

abbrev pub checked_then :
    {A : Type 0} → Result TournamentError Tournament → (Tournament → Call A) → Call A
checked_then (ok t) k h = k t h
checked_then (err e) k h = (err e, h)

-- `lockTournament` and `cancelTournament`: check, then write whatever is there by then.
unfoldable pub lock_tournament : (meanwhile : Hall → Hall) (tournament : ℕ) → Call (Unit {0})
lock_tournament meanwhile tournament h =
    checked_then (transition_tournament tournament TournamentStatus.active h)
      (λ t h. set_status tournament TournamentStatus.active (meanwhile h)) h

unfoldable pub cancel_tournament : (meanwhile : Hall → Hall) (tournament : ℕ) → Call (Unit {0})
cancel_tournament meanwhile tournament h =
    checked_then (transition_tournament tournament TournamentStatus.cancelled h)
      (λ t h. set_status tournament TournamentStatus.cancelled (meanwhile h)) h

abbrev pub credit_win : (amount : ℕ) → User → User
credit_win amount u = record u { virtual_balance = u.virtual_balance + amount; wins = u.wins + 1 }

-- One payout: the balance, and the WIN transaction.
unfoldable pub pay_allocation : TournamentPayoutAllocation → Call (Unit {0})
pay_allocation a h = elim (find a.user_id h.users) [
  | none ↦ (err TournamentError.record_not_found, h)
  | some u ↦ (
    ok tt,
    record h {
      users = update a.user_id (credit_win a.allocation) h.users;
      transactions =
          h.transactions
          ++ record { user_id = a.user_id; amount = a.allocation; rank = a.rank } ∷ [];
    },
  )
]

pub record TournamentPayoutResult : Type 0 where
  pub tournament_id : ℕ
  pub total_paid : ℕ
  pub winners_count : ℕ
  pub allocations : List TournamentPayoutAllocation

abbrev pub total_allocated : List TournamentPayoutAllocation → ℕ
total_allocated xs = sum_by (λ a. a.allocation) xs

abbrev pub payout_result :
    (tournament : ℕ) → List TournamentPayoutAllocation → TournamentPayoutResult
payout_result tournament xs = record {
  tournament_id = tournament;
  total_paid = total_allocated xs;
  winners_count = length xs;
  allocations = xs;
}

abbrev pub settle_writes :
    (tournament : ℕ) → List TournamentPayoutAllocation → Call TournamentPayoutResult
settle_writes tournament xs h =
    (set_status tournament TournamentStatus.completed
        >> for_each pay_allocation xs
        >> pure (payout_result tournament xs))
      h

-- What others commit before the standings are read, and before the transaction.
pub record Others : Type 0 where
  pub before_tally : Hall → Hall
  pub before_tx : Hall → Hall

-- `settleTournament`
module _ (stats_of : (user_id : ℕ) → Option UserStats) where
  abbrev pub settle_checked : Others → (tournament : ℕ) → Tournament → Call TournamentPayoutResult
  settle_checked o tournament t h =
      let seen = o.before_tally h in
      elim (find tournament seen.tournaments) [
        | none ↦ (err TournamentError.not_found, seen)
        | some u ↦
            transaction
              (settle_writes tournament (
                compute_allocations t.prize_pool
                  (tally_standings stats_of tournament seen.participants)))
              (o.before_tx seen)
      ]

  unfoldable pub settle_tournament : Others → (tournament : ℕ) → Call TournamentPayoutResult
  settle_tournament o tournament h =
      checked_then (transition_tournament tournament TournamentStatus.completed h)
        (settle_checked o tournament) h
