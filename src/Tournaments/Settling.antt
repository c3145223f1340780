-- ===== src/Tournaments/Settling.antt =====
-- `settleTournament` as a whole: what it reads, what it writes, and what it leaves when it throws.
use mathlib.Core.Path.{subst}
use xelma_backend.Base.{
  ℕ, ◌≡◌, ◌⊎◌, ◌+◌, refl, sym, ap, ◌∙◌, true, Option, some, List, Result, ok, err, find, pure,
  for_each, then_ok, transaction, after_transaction, arith, Option-cases, Bool-cases, inl, inr,
  find-update_self, ◌>>◌, map, ◌++◌,
}
use xelma_backend.Schema.{user_row}
use xelma_backend.Tournaments.Rows.{
  TournamentStatus, is_legal_tournament_transition, Tournament, tournament_row, Hall,
  TournamentError,
}
use xelma_backend.Tournaments.Standings.{UserStats, tally_standings}
use xelma_backend.Tournaments.Allocation.{TournamentPayoutAllocation, compute_allocations}
use xelma_backend.Tournaments.Calls.{
  set_status, with_status, pay_allocation, TournamentPayoutResult, total_allocated, settle_writes,
  Others, settle_checked, settle_tournament, transition_tournament, payout_result, checked_then,
}
use xelma_backend.Tournaments.Credits.{balance_in, balance_of, share_of, win_of, pay_all_credits}
use xelma_backend.Tournaments.Payout.{balances, winnings, pay_all_pays}

abbrev pub IsCompleted : (tournament : ℕ) → Hall → Type 0
IsCompleted id h =
    (t : Tournament) × (find id h.tournaments ≡ some t) × (t.status ≡ TournamentStatus.completed)

set_status_ok :
    (id : ℕ) (h h₁ : Hall)
    → set_status id TournamentStatus.completed h ≡ (ok tt, h₁)
    → (balances h₁ ≡ balances h)
      × (winnings h₁ ≡ winnings h)
      × (h₁.users ≡ h.users)
      × (h₁.transactions ≡ h.transactions)
      × IsCompleted id h₁
set_status_ok id h h₁ done = elim (Option-cases (find id h.tournaments)) [
  | inl gone ↦ absurd (ground arith)
  | inr (t, there) ↦
      let written =
        find-update_self id (with_status TournamentStatus.completed) t h.tournaments (λ t. refl)
          there in
      (
        ground arith,
        ground arith,
        ground arith,
        ground arith,
        (with_status TournamentStatus.completed t, ground arith, refl),
      )
]

-- What the writes of a settlement do when they go through.
pub record HasPaid (id : ℕ) (xs : List TournamentPayoutAllocation) (before after : Hall)
    (r : TournamentPayoutResult) : Type 0 where
  pub result : r ≡ payout_result id xs
  pub credited : balances after ≡ balances before + total_allocated xs
  pub account :
      (user_id : ℕ) → balance_of user_id after ≡ balance_of user_id before + share_of user_id xs
  pub entries : after.transactions ≡ before.transactions ++ map win_of xs
  pub recorded : winnings after ≡ winnings before + total_allocated xs
  pub completed : IsCompleted id after

settle_writes_ok :
    (id : ℕ) (xs : List TournamentPayoutAllocation) (h h' : Hall) (r : TournamentPayoutResult)
    → settle_writes id xs h ≡ (ok r, h')
    → HasPaid id xs h h' r
settle_writes_ok id xs h h' r done =
    let p = set_status id TournamentStatus.completed h in
    let q = (set_status id TournamentStatus.completed >> for_each pay_allocation xs) h in
    let (a, all_paid, last) = then_ok q (pure (payout_result id xs)) r h' done in
    let (b, was_set, rest) =
      then_ok p (for_each pay_allocation xs) a q.1 (ap (λ x. (x, q.1)) all_paid) in
    let set_first = set_status_ok id h p.1 (ap (λ x. (x, p.1)) was_set) in
    let then_paid = pay_all_pays xs p.1 q.1 rest in
    let is_set = set_first.4 in
    let same : q.1 ≡ h' = ap (λ x. x.1) last in
    record {
      result = cc;
      credited = sym (ap balances same) ∙ omega (arith, then_paid.0, set_first.0);
      account = λ k.
          sym (ap (balance_of k) same)
          ∙ ((pay_all_credits k xs p.1 q.1 rest).0
              ∙ ap (λ us. balance_in (find k us) + share_of k xs) set_first.2);
      entries =
          sym (ap (λ x. x.transactions) same)
          ∙ ((pay_all_credits 0 xs p.1 q.1 rest).1 ∙ ap (λ ts. ts ++ map win_of xs) set_first.3);
      recorded = sym (ap winnings same) ∙ omega (arith, then_paid.1, set_first.1);
      completed = (
        is_set.0,
        sym (ap (λ x. find id x.tournaments) same) ∙ (ap (λ ts. find id ts) then_paid.2 ∙ is_set.1),
        is_set.2,
      );
    }

module _ (stats_of : (user_id : ℕ) → Option UserStats) (o : Others) (id : ℕ) (h : Hall) where
  -- What a settlement finds: the tournament as it was checked, the state in which the standings are
  -- read, and the state in which the transaction begins.
  abbrev pub seen : Hall
  seen = o.before_tally h

  abbrev pub committed : Hall
  committed = o.before_tx seen

  abbrev pub to_pay : Tournament → List TournamentPayoutAllocation
  to_pay t = compute_allocations t.prize_pool (tally_standings stats_of id seen.participants)

  -- A settlement, by how it ends.
  abbrev pub Settles : Result TournamentError TournamentPayoutResult × Hall → Type 0
  Settles (ok r, h') =
      (t : Tournament) × (find id h.tournaments ≡ some t)
      × (t.status ≡ TournamentStatus.active)
      × HasPaid id (to_pay t) committed h' r
  Settles (err e, h') = (h' ≡ h) ⊎ (h' ≡ seen) ⊎ (h' ≡ committed)

  legal_is_active :
      (s : TournamentStatus)
      → is_legal_tournament_transition s TournamentStatus.completed ≡ true
      → s ≡ TournamentStatus.active
  legal_is_active TournamentStatus.upcoming e = cc
  legal_is_active TournamentStatus.active e = refl
  legal_is_active TournamentStatus.completed e = cc
  legal_is_active TournamentStatus.cancelled e = cc

  settle_checked-Settles :
      (t : Tournament)
      → find id h.tournaments ≡ some t
      → t.status ≡ TournamentStatus.active
      → Settles (settle_checked stats_of o id t h)
  settle_checked-Settles t there active = elim (Option-cases (find id seen.tournaments)) [
    | inl gone ↦
        let stops : settle_checked stats_of o id t h ≡ (err TournamentError.not_found, seen) =
          ground arith in
        subst Settles (sym stops) (inr (inl refl))
    | inr (u, found) ↦
        let goes : settle_checked stats_of o id t h
            ≡ transaction (settle_writes id (to_pay t)) committed =
          rw (found, settle_checked) refl in
        subst Settles (sym goes) (
          after_transaction Settles (settle_writes id (to_pay t)) committed
            (λ r h' done. (t, there, active, settle_writes_ok id (to_pay t) committed h' r done))
            (λ e h' failed. inr (inr refl)))
  ]

  -- A settlement that returns found the tournament ACTIVE; against the state in which its transaction
  -- begins, it leaves the tournament COMPLETED, credits every account exactly what the allocations of
  -- the prize pool over the standings give it, and all accounts together the total that it reports,
  -- and appends one WIN transaction for each allocation, of its account, amount and rank. If it
  -- throws, it has written nothing.
  pub settle_tournament-Settles : Settles (settle_tournament stats_of o id h)
  unfolding settle_tournament
  settle_tournament-Settles = elim (Option-cases (find id h.tournaments)) [
    | inl gone ↦
        let stops : settle_tournament stats_of o id h ≡ (err TournamentError.not_found, h) =
          ground arith in
        subst Settles (sym stops) (inl refl)
    | inr (t, there) ↦
        elim (Bool-cases (is_legal_tournament_transition t.status TournamentStatus.completed)) [
          | inl legal ↦
              let goes : settle_tournament stats_of o id h ≡ settle_checked stats_of o id t h =
                rw (there, settle_tournament, transition_tournament, checked_then)
                  (rw (legal, checked_then) refl) in
              subst Settles (sym goes)
                (settle_checked-Settles t there (legal_is_active t.status legal))
          | inr illegal ↦
              let stops : settle_tournament stats_of o id h
                  ≡ (err (TournamentError.invalid_state t.status TournamentStatus.completed), h) =
                rw (there, settle_tournament, transition_tournament, checked_then)
                  (rw (illegal, checked_then) refl) in
              subst Settles (sym stops) (inl refl)
        ]
  ]
