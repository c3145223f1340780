-- ===== src/Tournaments/Allocation.antt =====
-- `computeAllocations` of src/services/tournament.service.ts. Pools and allocations are in units of
-- 10^-8, the amounts between them in thousandths of a unit; the decimal library holds these exactly
-- up to 20 digits, which is pools below 10^17 units.
use xelma_backend.Base.{ℕ, zero, suc, ◌+◌, ◌-◌, ◌*◌, ◌/◌, List, [], ◌∷◌, take}
use xelma_backend.Tournaments.Standings.{Ranked}

pub record TournamentPayoutAllocation : Type 0 where
  pub rank : ℕ
  pub user_id : ℕ
  pub allocation : ℕ

-- The weights 0.5, 0.3 and 0.2, in thousandths.
abbrev pub weights : List ℕ
weights = 500 ∷ 300 ∷ 200 ∷ []

-- `toFixed(8)`, which rounds halves up.
abbrev pub to_fixed : ℕ → ℕ
to_fixed amount = (amount + 500) / 1000

abbrev allocate : Ranked → (amount : ℕ) → TournamentPayoutAllocation
allocate r amount = record {
  rank = r.rank;
  user_id = r.standing.user_id;
  allocation = to_fixed amount;
}

module _ (pool weight_sum : ℕ) where
  -- The loop over the winners: the last one takes what is left, or nothing if too much is allocated.
  abbrev pub allocate_from :
      (allocated : ℕ) (weights : List ℕ) → List Ranked → List TournamentPayoutAllocation
  allocate_from allocated ws [] = []
  allocate_from allocated ws (r ∷ []) = allocate r (pool * 1000 - allocated) ∷ []
  allocate_from allocated [] (r ∷ s ∷ rs) = []
  allocate_from allocated (w ∷ ws) (r ∷ s ∷ rs) =
      allocate r (pool * (w * 1000 / weight_sum))
      ∷ allocate_from (allocated + pool * (w * 1000 / weight_sum)) ws (s ∷ rs)

abbrev winners_weight : List Ranked → List ℕ → ℕ
winners_weight [] ws = 0
winners_weight (r ∷ rs) [] = 0
winners_weight (r ∷ rs) (w ∷ ws) = w + winners_weight rs ws

unfoldable pub compute_allocations :
    (prize_pool : ℕ) → List Ranked → List TournamentPayoutAllocation
compute_allocations zero standings = []
compute_allocations (suc n) standings =
    let winners = take 3 standings in
    allocate_from (suc n) (winners_weight winners weights) 0 weights winners
