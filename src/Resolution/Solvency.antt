-- ===== src/Resolution/Solvency.antt =====
-- An UP_DOWN round never pays out more than its two pools hold.
use xelma_backend.Base.{
  ℕ, ◌+◌, ◌≡◌, ◌≤◌, ◌<◌, ◌==◌, refl, Bool, true, false, Bool-cases, Option, none, some, inl, inr,
  List, [], ◌∷◌, length, sum, sum_by, Ordering, All, is_some, ok, arith, if◌then◌else◌,
}
use xelma_backend.Schema.{Prediction, Round, Side, side_eq, ChainError}
use xelma_backend.Decimals.{DecimalApi, dec_eq}
use xelma_backend.Decimals.Laws.{DecimalLaws, exact_limit}
use xelma_backend.Decimals.Payout.{payout, payouts, payouts_solvent, pool_limit}
use xelma_backend.Resolution.Writes.{Settling}
use xelma_backend.Resolution.UpDown.{has_side, payout_for, resolve_up_down_round}
use xelma_backend.Resolution.Accounts.{total_balance}
use xelma_backend.Resolution.Awards.{
  side_award, up_down_award, stake_back, resolve_up_down_round-Credited,
}

-- The stakes on one side.
abbrev pub backs : Side → Prediction → Bool
backs side p = elim p.side [ none ↦ false | some s ↦ side_eq s side ]

unfoldable pub stakes_on : Side → List Prediction → List ℕ
stakes_on side [] = []
stakes_on side (p ∷ ps) = if backs side p then p.amount ∷ stakes_on side ps else stakes_on side ps

length-stakes_on : (side : Side) (ps : List Prediction) → length (stakes_on side ps) ≤ length ps
unfolding stakes_on
length-stakes_on side [] = omega arith
length-stakes_on side (p ∷ ps) = ground (arith, length-stakes_on side ps)

abbrev pub HasSide : Prediction → Type 0
HasSide p = is_some p.side ≡ true

-- The stakes are in the pools, and the pools are not larger than the decimals are exact for.
pub record IsCovered (round : Round) (ps : List Prediction) : Type 0 where
  pub sides : All HasSide ps
  pub up_covered : sum (stakes_on Side.up ps) ≤ round.pool_up
  pub down_covered : sum (stakes_on Side.down ps) ≤ round.pool_down
  pub pools_small : round.pool_up + round.pool_down ≤ pool_limit

module _ (api : DecimalApi) (laws : DecimalLaws api) (now : ℕ) (round : Round) where
  open api use {Decimal, dec, cmp, is_zero, to_number}

  nothing : to_number (dec 0) ≡ 0
  nothing = laws.to_number-dec 0 (omega arith)

  sum_skip :
      (skip : Bool) (f : Prediction → ℕ) (ps : List Prediction)
      → sum_by (λ p. if skip then 0 else f p) ps ≡ (if skip then 0 else sum_by f ps)
  sum_skip true f [] = refl
  sum_skip true f (p ∷ ps) = omega (arith, sum_skip true f ps)
  sum_skip false f ps = refl

  side_sum :
      (side : Side) (w l : ℕ) (ps : List Prediction)
      → sum_by (λ p. payout_for api now round (has_side api now round side p) (dec w) (dec l) p) ps
        ≡ payouts api laws (stakes_on side ps) w l
  unfolding payout_for payouts payout stakes_on
  side_sum side w l [] = refl
  side_sum side w l (p ∷ ps) = elim (Bool-cases (backs side p)) [
    | inl win ↦ rw win (omega (arith, side_sum side w l ps))
    | inr loss ↦ rw loss (omega (arith, nothing, side_sum side w l ps))
  ]

  nothing_zero : (w : ℕ) → dec_eq api (dec w) (dec 0) ≡ (w == 0)
  nothing_zero w = rw (laws.cmp-dec w 0)

  side_solvent :
      (side : Side) (w l : ℕ) (ps : List Prediction)
      → sum (stakes_on side ps) ≤ w
      → w + l ≤ pool_limit
      → sum_by (side_award api now round side w l) ps ≤ w + l + length ps
  side_solvent side w l ps h k =
      let shares : Prediction → ℕ =
        λ p. payout_for api now round (has_side api now round side p) (dec w) (dec l) p in
      rw (sum_skip (dec_eq api (dec w) (dec 0)) shares ps)
        (elim (Bool-cases (dec_eq api (dec w) (dec 0))) [
          | inl empty ↦ rw empty (omega arith)
          | inr stakes ↦
              let pos : 0 < w = ground (arith, nothing_zero w) in
              rw stakes (
                omega (
                  arith,
                  side_sum side w l ps,
                  payouts_solvent api laws (stakes_on side ps) w l pos h k,
                  length-stakes_on side ps,
                ))
        ])

  -- Every stake is on one side or the other.
  stake_sum :
      (ps : List Prediction)
      → All HasSide ps
      → sum_by (λ p. p.amount) ps ≡ sum (stakes_on Side.up ps) + sum (stakes_on Side.down ps)
  unfolding stakes_on
  stake_sum [] h = refl
  stake_sum (p ∷ ps) h = ground (arith, stake_sum ps h.1)

  refund_sum :
      (ps : List Prediction)
      → sum_by (λ p. p.amount) ps ≤ exact_limit
      → sum_by (stake_back api now round) ps ≡ sum_by (λ p. p.amount) ps
  refund_sum [] h = refl
  refund_sum (p ∷ ps) h =
      omega (arith, refund_sum ps (omega arith), laws.to_number-dec p.amount (omega arith))

  awards_solvent :
      (o : Ordering) (ps : List Prediction)
      → IsCovered round ps
      → sum_by (up_down_award api now round o) ps ≤ round.pool_up + round.pool_down + length ps
  awards_solvent Ordering.eq ps c =
      omega (arith, stake_sum ps c.sides, refund_sum ps (omega (arith, stake_sum ps c.sides)))
  awards_solvent Ordering.gt ps c =
      side_solvent Side.up round.pool_up round.pool_down ps c.up_covered c.pools_small
  awards_solvent Ordering.lt ps c =
      omega (
        arith,
        side_solvent Side.down round.pool_down round.pool_up ps c.down_covered (omega arith),
      )

  -- If every prediction has a side, the stakes of each side are within its pool and the pools are
  -- small enough to be exact, settling an UP_DOWN round raises the sum of all balances by at most the
  -- pools and one unit of rounding for each prediction.
  pub resolve_up_down_round_solvent :
      (fail_closed : Bool) (failure : Option ChainError) (final_price : Decimal)
      (ps : List Prediction) (s s' : Settling)
      → IsCovered round ps
      → resolve_up_down_round api now round fail_closed failure final_price ps s ≡ (ok tt, s')
      → total_balance s'.db.users
        ≤ total_balance s.db.users + round.pool_up + round.pool_down + length ps
  resolve_up_down_round_solvent c failure final_price ps s s' covered h = omega (
    arith,
    (resolve_up_down_round-Credited api now round c failure final_price ps s s' h).1,
    awards_solvent (cmp final_price (dec round.start_price)) ps covered,
  )
