-- ===== src/Tests/Pricing.antt =====
-- Witnesses of the theorems on price ranges and payouts.
use xelma_backend.Base.{List, [], ◌∷◌}
use xelma_backend.PriceRange.{RoundRange}

abbrev low : RoundRange
low = record { min = 0; max = 10; pool = 5 }

abbrev high : RoundRange
high = record { min = 10; max = 20; pool = 7 }

abbrev ranges : List RoundRange
ranges = low ∷ high ∷ []
