-- ===== src/Decimals/Api.antt =====
-- The decimal type as a parameter, and the helpers of src/utils/decimal.util.ts and
-- src/utils/payout.util.ts on it.
use xelma_backend.Base.{ℕ, Bool, true, false, Ordering, if◌then◌else◌}

-- `dec n` is `new Decimal` of n * 10^-8. `to_number d` is what a money column holds, in its unit,
-- after `d.toNumber()` is written to it. `cmp` is `Decimal.cmp`, on values that are not NaN.
pub record DecimalApi : Type 1 where
  pub Decimal : Type 0
  pub dec : ℕ → Decimal
  pub add : Decimal → Decimal → Decimal
  pub sub : Decimal → Decimal → Decimal
  pub mul : Decimal → Decimal → Decimal
  pub div : Decimal → Decimal → Decimal
  pub cmp : Decimal → Decimal → Ordering
  pub is_zero : Decimal → Bool
  pub to_number : Decimal → ℕ

-- `gt`, `lt`, `eq`, `gte` and `lte` by the result of `cmp`.
abbrev pub is_gt : Ordering → Bool
is_gt Ordering.gt = true
is_gt _ = false

abbrev pub is_lt : Ordering → Bool
is_lt Ordering.lt = true
is_lt _ = false

abbrev pub is_eq : Ordering → Bool
is_eq Ordering.eq = true
is_eq _ = false

abbrev pub is_gte : Ordering → Bool
is_gte Ordering.lt = false
is_gte _ = true

abbrev pub is_lte : Ordering → Bool
is_lte Ordering.gt = false
is_lte _ = true

module _ (api : DecimalApi) where
  open api use {Decimal, dec, add, mul, div, cmp, is_zero}

  abbrev pub dec_add : Decimal → Decimal → Decimal
  dec_add a b = add a b

  abbrev pub dec_mul : Decimal → Decimal → Decimal
  dec_mul a b = mul a b

  abbrev pub dec_div : Decimal → Decimal → Decimal
  dec_div a b = div a b

  abbrev pub dec_eq : Decimal → Decimal → Bool
  dec_eq a b = is_eq (cmp a b)

  -- stake + (stake / winning_pool) * losing_pool
  unfoldable pub calculate_payout : (stake winning_pool losing_pool : Decimal) → Decimal
  calculate_payout stake winning_pool losing_pool =
      let share_of_losing_pool = dec_mul (dec_div stake winning_pool) losing_pool in
      if is_zero winning_pool then stake else dec_add stake share_of_losing_pool
