-- ===== src/Tournaments/Payout.antt =====
-- What the settlement of a tournament pays.
use xelma_backend.Base.{
  ℕ, zero, suc, ◌≡◌, ◌≢◌, ◌+◌, ◌≤◌, refl, ◌∙◌, List, [], ◌∷◌, ok, find, sum_by, sum_by-update,
  sum_by-append, for_each, for_each-cons, arith, Option-cases, inl, inr,
}
use xelma_backend.Schema.{user_row}
use xelma_backend.Tournaments.Rows.{tournament_row, WinTransaction, Hall}
use xelma_backend.Tournaments.Standings.{Ranked}
use xelma_backend.Tournaments.Allocation.{TournamentPayoutAllocation, compute_allocations}
use xelma_backend.Tournaments.Calls.{credit_win, pay_allocation, total_allocated}

-- Each allocation is rounded to 8 decimals on its own: for a pool that is not 0 and at least one
-- standing, the allocations add up to the pool, give or take one unit of the last decimal.
pub allocations_near_pool :
    (prize_pool : ℕ) (first : Ranked) (others : List Ranked)
    → prize_pool ≢ 0
    → (total_allocated (compute_allocations prize_pool (first ∷ others)) ≤ prize_pool + 1)
      × (prize_pool ≤ total_allocated (compute_allocations prize_pool (first ∷ others)) + 1)
unfolding compute_allocations
allocations_near_pool zero a others positive = absurd (positive refl)
allocations_near_pool (suc n) a [] positive = (omega arith, omega arith)
allocations_near_pool (suc n) a (b ∷ []) positive = (omega arith, omega arith)
allocations_near_pool (suc n) a (b ∷ c ∷ rest) positive = (omega arith, omega arith)

abbrev pub balances : Hall → ℕ
balances h = sum_by (λ u. u.virtual_balance) h.users

abbrev pub winnings : Hall → ℕ
winnings h = sum_by (λ w. w.amount) h.transactions

pay_allocation_pays :
    (a : TournamentPayoutAllocation) (h h' : Hall)
    → pay_allocation a h ≡ (ok tt, h')
    → (balances h' ≡ balances h + a.allocation)
      × (winnings h' ≡ winnings h + a.allocation)
      × (h'.tournaments ≡ h.tournaments)
unfolding pay_allocation
pay_allocation_pays a h h' done = elim (Option-cases (find a.user_id h.users)) [
  | inl gone ↦ absurd (ground arith)
  | inr (u, there) ↦
      let moved =
        sum_by-update (λ u. u.virtual_balance) a.user_id (credit_win a.allocation) u h.users
          there in
      let row : WinTransaction = record {
        user_id = a.user_id;
        amount = a.allocation;
        rank = a.rank;
      } in
      let added = sum_by-append (λ w. w.amount) h.transactions (row ∷ []) in
      (ground arith, ground arith, ground arith)
]

pub pay_all_pays :
    (xs : List TournamentPayoutAllocation) (h h' : Hall)
    → for_each pay_allocation xs h ≡ (ok tt, h')
    → (balances h' ≡ balances h + total_allocated xs)
      × (winnings h' ≡ winnings h + total_allocated xs)
      × (h'.tournaments ≡ h.tournaments)
unfolding for_each
pay_all_pays [] h h' done = (ground arith, ground arith, ground arith)
pay_all_pays (a ∷ xs) h h' done =
    let (h₁, first, others) = for_each-cons pay_allocation a xs h h' done in
    let one = pay_allocation_pays a h h₁ first in
    let all = pay_all_pays xs h₁ h' others in
    (omega (arith, one, all), omega (arith, one, all), all.2 ∙ one.2)
