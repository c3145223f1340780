-- ===== src/Decimals/Laws.antt =====
-- What the services rely on of the decimal type: comparisons are exact, and every operation is
-- rounded to 20 significant digits, so that it is off by less than one part in 10^19.
use xelma_backend.Base.{ℕ, ◌+◌, ◌*◌, ◌<◌, ◌≤◌, ◌≡◌, compare, ◌==◌}
use xelma_backend.Decimals.Api.{DecimalApi}

abbrev pub scale : ℕ
scale = 100_000_000

abbrev pub precision : ℕ
precision = 10_000_000_000_000_000_000

-- Amounts up to 10^15 units have at most 15 significant digits, which a double keeps.
abbrev pub exact_limit : ℕ
exact_limit = 1_000_000_000_000_000

-- `AtMost d n m` says that the value of `d` is at most n / m.
pub record DecimalLaws (api : DecimalApi) : Type 1 where
  pub cmp-dec : (a b : ℕ) → api.cmp (api.dec a) (api.dec b) ≡ compare a b
  pub is_zero-dec : (a : ℕ) → api.is_zero (api.dec a) ≡ (a == 0)
  pub to_number-dec : (a : ℕ) → a ≤ exact_limit → api.to_number (api.dec a) ≡ a
  pub AtMost : api.Decimal → ℕ → ℕ → Type 0
  pub div-AtMost :
      (a b : ℕ)
      → 0 < b
      → AtMost (api.div (api.dec a) (api.dec b)) (a * (precision + 1)) (b * precision)
  pub mul-AtMost :
      (d : api.Decimal) (n m a : ℕ)
      → AtMost d n m
      → AtMost (api.mul d (api.dec a)) (n * a * (precision + 1)) (m * (scale * precision))
  pub add-AtMost :
      (d : api.Decimal) (n m a : ℕ)
      → AtMost d n m
      → AtMost
          (api.add (api.dec a) d)
          ((a * m + n * scale) * (precision + 1))
          (m * (scale * precision))
  pub to_number-AtMost :
      (d : api.Decimal) (n m : ℕ)
      → AtMost d n m
      → n * scale ≤ exact_limit * m
      → api.to_number d * m ≤ n * scale + m
