-- ===== src/Decimals/Payout.antt =====
-- Bounds on the payout of src/utils/payout.util.ts.
use native.Mathlib.Nat.{mul-le-mul_left, mul-le-mul_right, le_of_mul-le-mul_left}
use xelma_backend.Base.{ℕ, ◌+◌, ◌*◌, ◌^◌, ◌<◌, ◌≤◌, ◌≡◌, List, [], ◌∷◌, length, sum, arith}
use xelma_backend.Decimals.Api.{DecimalApi, calculate_payout}
use xelma_backend.Decimals.Laws.{DecimalLaws, precision, exact_limit}

-- A million XLM, the largest pair of pools that the bounds speak of.
abbrev pub pool_limit : ℕ
pool_limit = 100_000_000_000_000

-- precision ^ 3, and the factors by which the two parts of a payout may be rounded up.
abbrev pub unit_weight : ℕ
unit_weight = precision ^ 3

abbrev pub stake_weight : ℕ
stake_weight = precision ^ 2 * (precision + 1)

abbrev pub share_weight : ℕ
share_weight = (precision + 1) ^ 3

module _ (api : DecimalApi) (laws : DecimalLaws api) where
  open api use {dec, add, mul, div, is_zero, to_number}
  open laws use {is_zero-dec, div-AtMost, mul-AtMost, add-AtMost, to_number-AtMost}

  unfoldable pub payout : (stake winning_pool losing_pool : ℕ) → ℕ
  payout s w l = to_number (calculate_payout api (dec s) (dec w) (dec l))

  calculate_payout_pos :
      (s w l : ℕ)
      → 0 < w
      → calculate_payout api (dec s) (dec w) (dec l)
        ≡ add (dec s) (mul (div (dec s) (dec w)) (dec l))
  unfolding calculate_payout
  calculate_payout_pos s w l h = rw (is_zero-dec w) (ground arith)

  numerator_bound :
      (s w l : ℕ)
      → s ≤ w
      → w + l ≤ pool_limit
      → s * (w * stake_weight + l * share_weight) ≤ exact_limit * (w * unit_weight)
  numerator_bound s w l h k =
      omega (arith, mul-le-mul_right w h, mul-le-mul_right l h, mul-le-mul_left w k)

  -- A winner's payout is at most stake + stake * losing_pool / winning_pool, up to the rounding.
  pub payout_bound :
      (s w l : ℕ)
      → 0 < w
      → s ≤ w
      → w + l ≤ pool_limit
      → payout s w l * (w * unit_weight)
        ≤ s * (w * stake_weight + l * share_weight) + w * unit_weight
  unfolding payout
  payout_bound s w l pos h k =
      let quotient = div-AtMost s w pos in
      let share = mul-AtMost _ _ _ l quotient in
      let sum = add-AtMost _ _ _ s share in
      let bound = to_number-AtMost _ _ _ sum (omega (arith, numerator_bound s w l h k)) in
      rw (calculate_payout_pos s w l pos, payout) (omega (arith, bound))

  -- The payouts to several stakes in the winning pool.
  unfoldable pub payouts : List ℕ → (winning_pool losing_pool : ℕ) → ℕ
  payouts [] w l = 0
  payouts (s ∷ ss) w l = payout s w l + payouts ss w l

  payouts_weighted :
      (ss : List ℕ) (w l : ℕ)
      → 0 < w
      → sum ss ≤ w
      → w + l ≤ pool_limit
      → payouts ss w l * (w * unit_weight)
        ≤ sum ss * (w * stake_weight + l * share_weight) + length ss * (w * unit_weight)
  unfolding payouts
  payouts_weighted [] w l pos h k = omega arith
  payouts_weighted (s ∷ ss) w l pos h k =
      omega
        (arith, payout_bound s w l pos (omega arith) k, payouts_weighted ss w l pos (omega arith) k)

  payouts_cancelled :
      (ss : List ℕ) (w l : ℕ)
      → 0 < w
      → sum ss ≤ w
      → w + l ≤ pool_limit
      → payouts ss w l * unit_weight ≤ w * stake_weight + l * share_weight + length ss * unit_weight
  payouts_cancelled ss w l pos h k =
      le_of_mul-le-mul_left {k = w}
        (omega (
          arith,
          payouts_weighted ss w l pos h k,
          mul-le-mul_right (w * stake_weight + l * share_weight) h,
        ))
        pos

  -- Winners whose stakes are within a winning pool that is not empty are paid at most the two
  -- pools and one unit of rounding each, if the pools are small enough to be exact.
  pub payouts_solvent :
      (ss : List ℕ) (w l : ℕ)
      → 0 < w
      → sum ss ≤ w
      → w + l ≤ pool_limit
      → payouts ss w l ≤ w + l + length ss
  payouts_solvent ss w l pos h k = omega (arith, payouts_cancelled ss w l pos h k)
