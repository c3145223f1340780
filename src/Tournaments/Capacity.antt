-- ===== src/Tournaments/Capacity.antt =====
-- The roster through any sequence of calls.
use xelma_backend.Base.{
  ℕ, ◌≡◌, refl, Option, none, some, List, [], ◌∷◌, Result, ok, err, Keeps, then-Keeps,
  for_each-Keeps, transaction-Keeps, find, if◌then◌else◌, arith, Option-cases, inl, inr, All,
  for_each, pure, ◌>>◌, transaction,
}
use xelma_backend.Schema.{user_row}
use xelma_backend.Tournaments.Rows.{
  TournamentStatus, Tournament, tournament_row, Hall, TournamentError,
}
use xelma_backend.Tournaments.Standings.{UserStats, tally_standings}
use xelma_backend.Tournaments.Allocation.{TournamentPayoutAllocation, compute_allocations}
use xelma_backend.Tournaments.Calls.{
  Call, is_joinable, add_entry, join_checks, join_in_tx, join_tournament, TournamentInput,
  create_tournament, transition_tournament, set_status, lock_tournament, cancel_tournament,
  pay_allocation, settle_writes, Others, settle_checked, settle_tournament, checked_then,
  payout_result, TournamentPayoutResult, current_of,
}
use xelma_backend.Tournaments.Roster.{
  HasRosters, either, add_entry-HasRosters, set_status-HasRosters, create_tournament-HasRosters,
}

pay_allocation-Keeps : (a : TournamentPayoutAllocation) → Keeps HasRosters (pay_allocation a)
unfolding pay_allocation
pay_allocation-Keeps a h well = elim (Option-cases (find a.user_id h.users)) [
  | inl gone ↦ rw (gone, pay_allocation) well
  | inr (u, there) ↦
      rw (there, pay_allocation)
        (record { counted = well.counted; made_up = well.made_up; unused = well.unused })
]

join_in_tx-Keeps : (user id : ℕ) → Keeps HasRosters (join_in_tx user id)
join_in_tx-Keeps user id h well = by_row (find id h.tournaments) refl
  where
    by_verdict :
        (v : Option TournamentError)
        → (v ≡ none → HasRosters (add_entry user id h))
        → HasRosters
            (elim v as (λ x. Result TournamentError ℕ × Hall) [
              | some e ↦ (err e, h)
              | none ↦
                  (ok (current_of (find id (add_entry user id h).tournaments)), add_entry user id h)
            ]).1
    by_verdict (some e) k = well
    by_verdict none k = k refl

    by_row :
        (o : Option Tournament)
        → find id h.tournaments ≡ o
        → HasRosters
            (elim (join_checks user id o h) as (λ x. Result TournamentError ℕ × Hall) [
              | some e ↦ (err e, h)
              | none ↦
                  (ok (current_of (find id (add_entry user id h).tournaments)), add_entry user id h)
            ]).1
    by_row none gone = well
    by_row (some t) there =
        by_verdict (join_checks user id (some t) h)
          (λ e. add_entry-HasRosters h well user id t there (ground arith))

module _ (meanwhile : Hall → Hall)
    (quiet : (h : Hall) → HasRosters h → HasRosters (meanwhile h)) where
  join_tournament-Keeps : (user id : ℕ) → Keeps HasRosters (join_tournament meanwhile user id)
  unfolding join_tournament
  join_tournament-Keeps user id h well = by_row (find id h.tournaments)
    where
      by_row :
          (o : Option Tournament)
          → HasRosters
              (elim o as (λ x. Result TournamentError ℕ × Hall) [
                | none ↦ (err TournamentError.not_found, h)
                | some t ↦
                    if is_joinable t.status
                    then join_in_tx user id (meanwhile h)
                    else (err TournamentError.is_closed, h)
              ]).1
      by_row none = well
      by_row (some t) =
          either (is_joinable t.status) _ _ (join_in_tx-Keeps user id (meanwhile h) (quiet h well))
            well

checked_then-Keeps :
    {A : Type 0} (r : Result TournamentError Tournament) (k : Tournament → Call A) (h : Hall)
    → HasRosters h
    → ((t : Tournament) → HasRosters (k t h).1)
    → HasRosters (checked_then r k h).1
checked_then-Keeps (ok t) k h well then_well = then_well t
checked_then-Keeps (err e) k h well then_well = well

settle_writes-Keeps :
    (id : ℕ) (xs : List TournamentPayoutAllocation) → Keeps HasRosters (settle_writes id xs)
settle_writes-Keeps id xs =
    then-Keeps HasRosters (set_status id TournamentStatus.completed >> for_each pay_allocation xs)
      (pure (payout_result id xs))
      (then-Keeps HasRosters (set_status id TournamentStatus.completed) (for_each pay_allocation xs)
        (λ h well. set_status-HasRosters h well id TournamentStatus.completed)
        (for_each-Keeps HasRosters pay_allocation pay_allocation-Keeps xs))
      (λ h well. well)

abbrev pub LeavesRosters : (Hall → Hall) → Type 0
LeavesRosters f = (h : Hall) → HasRosters h → HasRosters (f h)

module _ (stats_of : (user_id : ℕ) → Option UserStats) (o : Others)
    (quiet : LeavesRosters o.before_tally × LeavesRosters o.before_tx) where
  settle_checked-Keeps :
      (id : ℕ) (t : Tournament) → Keeps HasRosters (settle_checked stats_of o id t)
  settle_checked-Keeps id t h well = by_row (find id (o.before_tally h).tournaments)
    where
      allocations : List TournamentPayoutAllocation
      allocations =
          compute_allocations t.prize_pool
            (tally_standings stats_of id (o.before_tally h).participants)

      by_row :
          (found : Option Tournament)
          → HasRosters
              (elim found as (λ x. Result TournamentError TournamentPayoutResult × Hall) [
                | none ↦ (err TournamentError.not_found, o.before_tally h)
                | some u ↦
                    transaction (settle_writes id allocations) (o.before_tx (o.before_tally h))
              ]).1
      by_row none = quiet.0 h well
      by_row (some u) =
          transaction-Keeps HasRosters (settle_writes id allocations)
            (settle_writes-Keeps id allocations) (o.before_tx (o.before_tally h))
            (quiet.1 (o.before_tally h) (quiet.0 h well))

-- A call of the service, with what others commit meanwhile.
pub data TournamentCall : Type 0 where
  creates : TournamentInput → TournamentCall
  joins : (meanwhile : Hall → Hall) (user tournament : ℕ) → TournamentCall
  locks cancels : (meanwhile : Hall → Hall) (tournament : ℕ) → TournamentCall
  settles :
      (stats_of : (user_id : ℕ) → Option UserStats) → Others → (tournament : ℕ) → TournamentCall

unfoldable pub run_tournament_call : TournamentCall → Hall → Hall
run_tournament_call (creates i) h = (create_tournament i h).1
run_tournament_call (joins meanwhile user id) h = (join_tournament meanwhile user id h).1
run_tournament_call (locks meanwhile id) h = (lock_tournament meanwhile id h).1
run_tournament_call (cancels meanwhile id) h = (cancel_tournament meanwhile id h).1
run_tournament_call (settles stats_of o id) h = (settle_tournament stats_of o id h).1

abbrev pub IsQuiet : TournamentCall → Type 0
IsQuiet (creates i) = Unit
IsQuiet (joins meanwhile user id) = LeavesRosters meanwhile
IsQuiet (locks meanwhile id) = LeavesRosters meanwhile
IsQuiet (cancels meanwhile id) = LeavesRosters meanwhile
IsQuiet (settles stats_of o id) = LeavesRosters o.before_tally × LeavesRosters o.before_tx

unfoldable pub run_tournament_calls : List TournamentCall → Hall → Hall
run_tournament_calls [] h = h
run_tournament_calls (c ∷ cs) h = run_tournament_calls cs (run_tournament_call c h)

run_tournament_call-Keeps :
    (c : TournamentCall) (h : Hall)
    → IsQuiet c
    → HasRosters h
    → HasRosters (run_tournament_call c h)
unfolding run_tournament_call lock_tournament cancel_tournament settle_tournament
run_tournament_call-Keeps (creates i) h quiet well = create_tournament-HasRosters h well i
run_tournament_call-Keeps (joins meanwhile user id) h quiet well =
    join_tournament-Keeps meanwhile quiet user id h well
run_tournament_call-Keeps (locks meanwhile id) h quiet well =
    checked_then-Keeps (transition_tournament id TournamentStatus.active h)
      (λ t h. set_status id TournamentStatus.active (meanwhile h)) h well
      (λ t. set_status-HasRosters (meanwhile h) (quiet h well) id TournamentStatus.active)
run_tournament_call-Keeps (cancels meanwhile id) h quiet well =
    checked_then-Keeps (transition_tournament id TournamentStatus.cancelled h)
      (λ t h. set_status id TournamentStatus.cancelled (meanwhile h)) h well
      (λ t. set_status-HasRosters (meanwhile h) (quiet h well) id TournamentStatus.cancelled)
run_tournament_call-Keeps (settles stats_of o id) h quiet well =
    checked_then-Keeps (transition_tournament id TournamentStatus.completed h)
      (settle_checked stats_of o id) h well (λ t. settle_checked-Keeps stats_of o quiet id t h well)

-- Through any sequence of calls that create, join, lock, cancel and settle tournaments, the roster
-- of a tournament is never overfilled and its counter is the number of its participants, if this is
-- so at the start and what others commit during the calls keeps it.
pub run_tournament_calls-HasRosters :
    (cs : List TournamentCall) (h : Hall)
    → All IsQuiet cs
    → HasRosters h
    → HasRosters (run_tournament_calls cs h)
unfolding run_tournament_calls
run_tournament_calls-HasRosters [] h quiet well = well
run_tournament_calls-HasRosters (c ∷ cs) h quiet well =
    run_tournament_calls-HasRosters cs (run_tournament_call c h) quiet.1
      (run_tournament_call-Keeps c h quiet.0 well)
