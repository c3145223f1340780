-- ===== src/Claims/Sweep.antt =====
-- `sweepUnclaimedWinnings` of src/services/payout-reconciliation.service.ts.
use xelma_backend.Base.{
  ℕ, ◌+◌, ◌*◌, Bool, true, false, ◌&&◌, ◌==◌, ltb, leb, Option, none, some, List, [], ◌∷◌, find,
  find_first, take, if◌then◌else◌, max,
}
use xelma_backend.Schema.{User, user_row, Bet, BetStatus, bet_status_eq, Db}
use xelma_backend.Claims.Rows.{ClaimStatus, claim_status_eq, Claim, Ledger, is_open_of}
use xelma_backend.Claims.Writes.{queue_claim}

-- A group of `groupBy`: a user, and when the last of the user's bets was settled.
pub record SettledBets : Type 0 where
  pub user_id : ℕ
  pub latest : Option ℕ

abbrev later : Option ℕ → Option ℕ → Option ℕ
later none t = t
later (some s) none = some s
later (some s) (some t) = some (max s t)

-- The groups stay in the order of their users.
abbrev group_bet : Bet → List SettledBets → List SettledBets
group_bet b [] = record { user_id = b.user_id; latest = b.resolved_at } ∷ []
group_bet b (g ∷ gs) =
    if b.user_id == g.user_id
    then record g { latest = later b.resolved_at g.latest } ∷ gs
    else if ltb b.user_id g.user_id
    then record { user_id = b.user_id; latest = b.resolved_at } ∷ g ∷ gs
    else g ∷ group_bet b gs

unfoldable pub settled_bets : List Bet → List SettledBets
settled_bets [] = []
settled_bets (b ∷ bs) =
    let rest = settled_bets bs in
    if bet_status_eq b.status BetStatus.resolved then group_bet b rest else rest

-- The newest confirmed claim of a wallet, by when it was made.
abbrev pub latest_confirmed : (wallet : ℕ) → List Claim → Option ℕ
latest_confirmed wallet [] = none
latest_confirmed wallet (c ∷ cs) =
    if c.wallet_address == wallet && claim_status_eq c.status ClaimStatus.confirmed
    then later (some c.created_at) (latest_confirmed wallet cs)
    else latest_confirmed wallet cs

abbrev pub is_swept_since : (settled confirmed : Option ℕ) → Bool
is_swept_since (some s) (some t) = leb s t
is_swept_since _ _ = false

-- What the loop decides for a group.
pub data SweepVerdict : Type 0 where
  unknown_user has_open_claim already_swept : SweepVerdict
  candidate : User → SweepVerdict

abbrev pub unless_swept : Bool → User → SweepVerdict
unless_swept true user = SweepVerdict.already_swept
unless_swept false user = candidate user

abbrev pub unless_open : Option Claim → (settled : Option ℕ) → User → List Claim → SweepVerdict
unless_open (some c) settled user cs = SweepVerdict.has_open_claim
unless_open none settled user cs =
    unless_swept (is_swept_since settled (latest_confirmed user.wallet_address cs)) user

abbrev pub of_user : Option User → (settled : Option ℕ) → List Claim → SweepVerdict
of_user none settled cs = SweepVerdict.unknown_user
of_user (some user) settled cs =
    unless_open (find_first (is_open_of user.wallet_address) cs) settled user cs

pub record PayoutSweepResult : Type 0 where
  pub swept : ℕ
  pub skipped_open : ℕ
  pub skipped_already_swept : ℕ

module _ (now batch_size : ℕ) (users : List User) where
  -- The loop over the groups.
  unfoldable pub sweep_groups :
      List SettledBets → PayoutSweepResult → Ledger → PayoutSweepResult × Ledger
  sweep_groups [] r l = (r, l)
  sweep_groups (g ∷ gs) r l = elim (of_user (find g.user_id users) g.latest l.claims) [
    | SweepVerdict.unknown_user ↦ sweep_groups gs r l
    | SweepVerdict.has_open_claim ↦
        sweep_groups gs (record r { skipped_open = r.skipped_open + 1 }) l
    | SweepVerdict.already_swept ↦
        sweep_groups gs (record r { skipped_already_swept = r.skipped_already_swept + 1 }) l
    | candidate user ↦ elim (leb batch_size r.swept) [
      | true ↦ (r, l)
      | false ↦
          sweep_groups gs (record r { swept = r.swept + 1 })
            (queue_claim now user.id user.wallet_address l)
    ]
  ]

abbrev pub nothing_swept : PayoutSweepResult
nothing_swept = record { swept = 0; skipped_open = 0; skipped_already_swept = 0 }

unfoldable pub sweep_unclaimed_winnings :
    (now batch_size : ℕ) → Db → Ledger → PayoutSweepResult × Ledger
sweep_unclaimed_winnings now batch_size db l =
    sweep_groups now batch_size db.users (take (batch_size * 2) (settled_bets db.bets))
      nothing_swept l
