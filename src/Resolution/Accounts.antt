-- ===== src/Resolution/Accounts.antt =====
-- Where the money goes: every account is credited exactly what its predictions are paid.
use xelma_backend.Base.{
  ℕ, ◌+◌, ◌≡◌, ◌==◌, refl, Bool, Bool-cases, Option, none, some, Option-cases, inl, inr, List, [],
  ◌∷◌, ok, for_each, for_each-cons, find, update, find-update, sum_by, sum_by-update, arith,
  if◌then◌else◌,
}
use xelma_backend.Schema.{User, user_row, Prediction, bet_row}
use xelma_backend.Decimals.{DecimalApi}
use xelma_backend.Bets.{resolve_bet, create_event}
use xelma_backend.Schema.{Round}
use xelma_backend.Resolution.Writes.{
  Settling, Settlement, update_prediction, update_user, close_bet, queue_event,
}
use xelma_backend.Resolution.Legends.{lose_one}
use xelma_backend.Resolution.UpDown.{refund_one, credit, announce, settle_one}

-- The balance of an account, and of all of them.
abbrev pub balance : Option User → ℕ
balance none = 0
balance (some u) = u.virtual_balance

abbrev pub balance_of : ℕ → List User → ℕ
balance_of k users = balance (find k users)

abbrev pub total_balance : List User → ℕ
total_balance = sum_by (λ u. u.virtual_balance)

-- What an account is owed of the predictions.
unfoldable pub owed : ℕ → (Prediction → ℕ) → List Prediction → ℕ
owed k amount [] = 0
owed k amount (p ∷ ps) = (if p.user_id == k then amount p else 0) + owed k amount ps

-- A step that returns has credited the owner of its prediction, and nobody else.
abbrev pub Pays : Settlement → ℕ → ℕ → Type 0
Pays step user_id amount =
    (s s' : Settling)
    → step s ≡ (ok tt, s')
    → ((k : ℕ)
        → balance_of k s'.db.users ≡ balance_of k s.db.users + (if user_id == k then amount else 0))
      × (total_balance s'.db.users ≡ total_balance s.db.users + amount)

close_bet-users :
    (now user_id round_id : ℕ) (won : Bool) (payout : ℕ) (s : Settling)
    → (close_bet now user_id round_id won payout s).1.db.users ≡ s.db.users
unfolding close_bet resolve_bet create_event
close_bet-users now user_id round_id won payout s = ground arith

close_bet-ok :
    (now user_id round_id : ℕ) (won : Bool) (payout : ℕ) (s : Settling)
    → (close_bet now user_id round_id won payout s).0 ≡ ok tt
unfolding close_bet
close_bet-ok now user_id round_id won payout s = ground arith

-- A write to one account that adds to its balance.
user_credited :
    (f : User → User) (amount k : ℕ) (user_id : ℕ) (u : User) (users : List User)
    → find user_id users ≡ some u
    → ((v : User) → (f v).id ≡ v.id)
    → ((v : User) → (f v).virtual_balance ≡ v.virtual_balance + amount)
    → (balance_of k (update user_id f users)
        ≡ balance_of k users + (if user_id == k then amount else 0))
      × (total_balance (update user_id f users) ≡ total_balance users + amount)
user_credited f amount k user_id u users e keeps adds = (
  elim (Bool-cases (user_id == k)) [
    | inl own ↦ ground (arith, find-update k user_id f users keeps, adds u)
    | inr other ↦ ground (arith, find-update k user_id f users keeps)
  ],
  omega (arith, adds u, sum_by-update (λ (v : User). v.virtual_balance) user_id f u users e),
)

-- A step that writes one account, and its users afterwards.
abbrev Credits : Settlement → ℕ → (User → User) → Type 0
Credits step user_id f =
    (s s' : Settling)
    → step s ≡ (ok tt, s')
    → (u : User) × (find user_id s.db.users ≡ some u) × (s'.db.users ≡ update user_id f s.db.users)

Credits-Pays :
    (step : Settlement) (user_id amount : ℕ) (f : User → User)
    → ((v : User) → (f v).id ≡ v.id)
    → ((v : User) → (f v).virtual_balance ≡ v.virtual_balance + amount)
    → Credits step user_id f
    → Pays step user_id amount
Credits-Pays step user_id amount f keeps adds c s s' h =
    let (u, found, written) = c s s' h in
    rw written (
      λ k. (user_credited f amount k user_id u s.db.users found keeps adds).0,
      (user_credited f amount 0 user_id u s.db.users found keeps adds).1,
    )

module _ (api : DecimalApi) (now : ℕ) (round : Round) where
  settle_one-Credits :
      (won : Bool) (payout : ℕ) (p : Prediction)
      → Credits (settle_one api now round won payout p) p.user_id (credit api now round won payout)
  unfolding settle_one update_prediction update_user announce queue_event
  settle_one-Credits won payout p s s' h = elim (Option-cases (find p.user_id s.db.users)) [
    | inl gone ↦ absurd (ground arith)
    | inr (u, e) ↦ (u, e, grind (arith, close_bet-users))
  ]

  refund_one-Credits :
      (p : Prediction)
      → Credits
          (refund_one api now round p)
          p.user_id
          (λ u. record u { virtual_balance = u.virtual_balance + api.to_number (api.dec p.amount) })
  unfolding refund_one update_prediction update_user
  refund_one-Credits p s s' h = elim (Option-cases (find p.user_id s.db.users)) [
    | inl gone ↦ absurd (ground arith)
    | inr (u, e) ↦ (u, e, grind (arith, close_bet-users))
  ]

  lose_one-Credits :
      (p : Prediction) → Credits (lose_one api now round p) p.user_id (λ u. record u { streak = 0 })
  unfolding lose_one update_prediction update_user announce queue_event
  lose_one-Credits p s s' h = elim (Option-cases (find p.user_id s.db.users)) [
    | inl gone ↦ absurd (ground arith)
    | inr (u, e) ↦ (u, e, grind (arith, close_bet-users))
  ]

  pub settle_one-Pays :
      (won : Bool) (payout : ℕ) (p : Prediction)
      → Pays (settle_one api now round won payout p) p.user_id payout
  settle_one-Pays won payout p =
      Credits-Pays _ _ _ (credit api now round won payout) (λ v. refl) (λ v. refl)
        (settle_one-Credits won payout p)

  pub refund_one-Pays :
      (p : Prediction)
      → Pays (refund_one api now round p) p.user_id (api.to_number (api.dec p.amount))
  refund_one-Pays p = Credits-Pays _ _ _ _ (λ v. refl) (λ v. refl) (refund_one-Credits p)

  pub lose_one-Pays : (p : Prediction) → Pays (lose_one api now round p) p.user_id 0
  lose_one-Pays p = Credits-Pays _ _ _ _ (λ v. refl) (λ v. omega arith) (lose_one-Credits p)

-- What a loop over predictions has credited.
abbrev pub Credited : (Prediction → ℕ) → List Prediction → (before after : List User) → Type 0
Credited amount ps before after =
    ((k : ℕ) → balance_of k after ≡ balance_of k before + owed k amount ps)
    × (total_balance after ≡ total_balance before + sum_by amount ps)

pub for_each-Credited :
    (step : Prediction → Settlement) (amount : Prediction → ℕ)
    → ((p : Prediction) → Pays (step p) p.user_id (amount p))
    → (ps : List Prediction) (s s' : Settling) → for_each step ps s ≡ (ok tt, s')
    → Credited amount ps s.db.users s'.db.users
unfolding owed for_each
for_each-Credited step amount pays [] s s' h = (λ k. ground arith, ground arith)
for_each-Credited step amount pays (p ∷ ps) s s' h =
    let (s₁, first, others) = for_each-cons step p ps s s' h in
    let now_paid = pays p s s₁ first in
    let rest = for_each-Credited step amount pays ps s₁ s' others in
    (λ k. omega (arith, now_paid.0 k, rest.0 k), omega (arith, now_paid.1, rest.1))
