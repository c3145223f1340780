-- ===== src/Tournaments/Twice.antt =====
-- Two settlements of one tournament at the same time.
use mathlib.Core.Path.{subst}
use xelma_backend.Base.{ℕ, ◌≡◌, ◌+◌, ap, sym, ◌∙◌, Option, ok, arith}
use xelma_backend.Tournaments.Rows.{tournament_row, Hall}
use xelma_backend.Tournaments.Standings.{UserStats}
use xelma_backend.Tournaments.Calls.{
  Others, TournamentPayoutResult, settle_tournament, total_allocated,
}
use xelma_backend.Tournaments.Payout.{balances}
use xelma_backend.Tournaments.Settling.{Settles, settle_tournament-Settles, to_pay}

-- Nobody else commits.
abbrev pub undisturbed : Others
undisturbed = record { before_tally = λ h. h; before_tx = λ h. h }

-- Others commit this state just before the transaction.
abbrev pub overtaken_by : Hall → Others
overtaken_by h = record { before_tally = λ h. h; before_tx = λ k. h }

module _ (stats_of : (user_id : ℕ) → Option UserStats) (id : ℕ) (h h₁ h₂ : Hall)
    (q r : TournamentPayoutResult) where
  -- The transaction of a settlement does not read the status again. If a settlement goes through and
  -- commits just before the transaction of another one that has made the same checks, the second one
  -- that goes through too pays the same total again: the accounts have received it twice.
  pub settled_twice :
      settle_tournament stats_of undisturbed id h ≡ (ok q, h₁)
      → settle_tournament stats_of (overtaken_by h₁) id h ≡ (ok r, h₂)
      → (r.total_paid ≡ q.total_paid) × (balances h₂ ≡ balances h + q.total_paid + q.total_paid)
  settled_twice e f =
      let (t, there, active, paid) =
        subst (Settles stats_of undisturbed id h) e
          (settle_tournament-Settles stats_of undisturbed id h) in
      let (u, here, active', again) =
        subst (Settles stats_of (overtaken_by h₁) id h) f
          (settle_tournament-Settles stats_of (overtaken_by h₁) id h) in
      let same : u ≡ t = cc in
      let first = paid.result in
      let second = again.result in
      let total : q.total_paid ≡ total_allocated (to_pay stats_of undisturbed id h t) =
        ap (λ x. x.total_paid) first in
      let total' : r.total_paid ≡ total_allocated (to_pay stats_of undisturbed id h t) =
        ap (λ x. x.total_paid) second
        ∙ ap (λ x. total_allocated (to_pay stats_of undisturbed id h x)) same in
      let credited' : balances h₂
          ≡ balances h₁ + total_allocated (to_pay stats_of undisturbed id h t) =
        again.credited
        ∙ ap (λ x. balances h₁ + total_allocated (to_pay stats_of undisturbed id h x)) same in
      (total' ∙ sym total, omega (arith, paid.credited, credited', total))
