-- ===== src/Decimals/FixedPoint.antt =====
-- A decimal type that meets the laws: eight places, rounded down.
use native.Mathlib.Nat.{mul-le-mul_right, div-mul-le_self}
use xelma_backend.Base.{ℕ, ◌+◌, ◌*◌, ◌-◌, ◌/◌, ◌≤◌, refl, compare, ◌==◌, arith}
use xelma_backend.Decimals.Api.{DecimalApi}
use xelma_backend.Decimals.Laws.{DecimalLaws, scale, precision}

abbrev pub fixed_point : DecimalApi
fixed_point = record {
  Decimal = ℕ;
  dec = λ n. n;
  add = λ a b. a + b;
  sub = λ a b. a - b;
  mul = λ a b. a * b / scale;
  div = λ a b. a * scale / b;
  cmp = compare;
  is_zero = λ a. a == 0;
  to_number = λ a. a;
}

-- The value of `d` is at most n / m.
abbrev pub IsAtMost : ℕ → ℕ → ℕ → Type 0
IsAtMost d n m = d * m ≤ n * scale

div_bound : (a b : ℕ) → IsAtMost (a * scale / b) (a * (precision + 1)) (b * precision)
div_bound a b = omega (arith, div-mul-le_self (a * scale) b)

mul_bound :
    (d n m a : ℕ)
    → IsAtMost d n m
    → IsAtMost (d * a / scale) (n * a * (precision + 1)) (m * (scale * precision))
mul_bound d n m a h =
    omega (arith, mul-le-mul_right m (div-mul-le_self (d * a) scale), mul-le-mul_right a h)

add_bound :
    (d n m a : ℕ)
    → IsAtMost d n m
    → IsAtMost (a + d) ((a * m + n * scale) * (precision + 1)) (m * (scale * precision))
add_bound d n m a h = omega arith

pub fixed_point-DecimalLaws : DecimalLaws fixed_point
fixed_point-DecimalLaws = record {
  cmp-dec = λ a b. refl;
  is_zero-dec = λ a. refl;
  to_number-dec = λ a h. refl;
  AtMost = IsAtMost;
  div-AtMost = λ a b h. div_bound a b;
  mul-AtMost = mul_bound;
  add-AtMost = add_bound;
  to_number-AtMost = λ d n m h k. omega arith;
}
