-- ===== src/Tournaments/Credits.antt =====
-- What the payouts of a settlement write to each account and to the ledger of transactions.
use mathlib.Core.List.{append_assoc, append-nil}
use xelma_backend.Base.{
  ℕ, ◌≡◌, ◌+◌, ◌==◌, refl, Option, none, some, List, [], ◌∷◌, ◌++◌, map, ok, find, find-update,
  sum_by, for_each, for_each-cons, arith, ap, sym, ◌∙◌, Option-cases, inl, inr, if◌then◌else◌,
}
use xelma_backend.Schema.{User, user_row}
use xelma_backend.Tournaments.Rows.{WinTransaction, Hall}
use xelma_backend.Tournaments.Allocation.{TournamentPayoutAllocation}
use xelma_backend.Tournaments.Calls.{credit_win, pay_allocation}

-- What one account is allocated.
abbrev pub share_of : (user_id : ℕ) → List TournamentPayoutAllocation → ℕ
share_of k xs = sum_by (λ a. if a.user_id == k then a.allocation else 0) xs

abbrev pub balance_in : Option User → ℕ
balance_in none = 0
balance_in (some u) = u.virtual_balance

-- The balance of an account, 0 where there is none.
abbrev pub balance_of : (user_id : ℕ) → Hall → ℕ
balance_of k h = balance_in (find k h.users)

abbrev pub win_of : TournamentPayoutAllocation → WinTransaction
win_of a = record { user_id = a.user_id; amount = a.allocation; rank = a.rank }

pay_allocation_credits :
    (k : ℕ) (a : TournamentPayoutAllocation) (h h' : Hall)
    → pay_allocation a h ≡ (ok tt, h')
    → (balance_of k h' ≡ balance_of k h + (if a.user_id == k then a.allocation else 0))
      × (h'.transactions ≡ h.transactions ++ win_of a ∷ [])
unfolding pay_allocation
pay_allocation_credits k a h h' done = elim (Option-cases (find a.user_id h.users)) [
  | inl gone ↦ absurd (ground arith)
  | inr (u, there) ↦
      let found = find-update k a.user_id (credit_win a.allocation) h.users (λ u. refl) in
      (ground (arith, found), ground arith)
]

-- Every account is credited its own allocations, and each allocation is recorded, in their order.
pub pay_all_credits :
    (k : ℕ) (xs : List TournamentPayoutAllocation) (h h' : Hall)
    → for_each pay_allocation xs h ≡ (ok tt, h')
    → (balance_of k h' ≡ balance_of k h + share_of k xs)
      × (h'.transactions ≡ h.transactions ++ map win_of xs)
unfolding for_each
pay_all_credits k [] h h' done = (
  ground arith,
  ap (λ x. x.transactions) (sym (ap (λ p. p.1) done)) ∙ sym (append-nil h.transactions),
)
pay_all_credits k (a ∷ xs) h h' done =
    let (h₁, first, others) = for_each-cons pay_allocation a xs h h' done in
    let one = pay_allocation_credits k a h h₁ first in
    let all = pay_all_credits k xs h₁ h' others in
    (
      omega (arith, one, all),
      all.1
          ∙ (ap (λ ts. ts ++ map win_of xs) one.1
              ∙ append_assoc h.transactions (win_of a ∷ []) (map win_of xs)),
    )
