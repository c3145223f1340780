-- ===== src/PriceRange/Pools.antt =====
-- The pools of the ranges under `updateRangePool`, and the column's round trip.
use xelma_backend.Base.{
  ℕ, ◌+◌, ◌*◌, ◌<◌, ◌≡◌, refl, Bool-cases, some, List, [], ◌∷◌, All, arith, inl, inr, sum_by,
  if◌then◌else◌,
}
use xelma_backend.PriceRange.Ranges.{
  RoundRange, has_bounds, find_range_by_bounds, update_range_pool, sort_by_min, insert_by_min,
  parse_round_price_ranges, ranges_to_json,
}

abbrev pub total_pool : List RoundRange → ℕ
total_pool = sum_by (λ r. r.pool)

abbrev pub Ordered : RoundRange → Type 0
Ordered r = r.min < r.max

-- How many ranges have the given bounds.
pub matching : ℕ → ℕ → List RoundRange → ℕ
matching lo hi [] = 0
matching lo hi (r ∷ rs) = (if has_bounds lo hi r then 1 else 0) + matching lo hi rs

-- A stake raises the total of the pools by its amount, once for each range with its bounds.
pub total_pool-update_range_pool :
    (rs : List RoundRange) (lo hi amount : ℕ)
    → total_pool (update_range_pool rs lo hi amount) ≡ total_pool rs + matching lo hi rs * amount
unfolding update_range_pool matching
total_pool-update_range_pool [] lo hi amount = omega arith
total_pool-update_range_pool (r ∷ rs) lo hi amount = elim (Bool-cases (has_bounds lo hi r)) [
  | inl hit ↦ rw hit (omega (arith, total_pool-update_range_pool rs lo hi amount))
  | inr miss ↦ rw miss (omega (arith, total_pool-update_range_pool rs lo hi amount))
]

-- The range that a stake was looked up by holds the stake afterwards.
pub find_range-update_range_pool :
    (rs : List RoundRange) (lo hi amount : ℕ) (r : RoundRange)
    → find_range_by_bounds rs lo hi ≡ some r
    → find_range_by_bounds (update_range_pool rs lo hi amount) lo hi
      ≡ some (record r { pool = r.pool + amount })
unfolding update_range_pool find_range_by_bounds
find_range-update_range_pool [] lo hi amount r e = cc
find_range-update_range_pool (s ∷ rs) lo hi amount r e =
    ground (arith, find_range-update_range_pool rs lo hi amount r)

-- Ranges whose lower bound is below the upper one read back from the column as they were written.
pub parse-ranges_to_json :
    (rs : List RoundRange) → All Ordered rs → parse_round_price_ranges (ranges_to_json rs) ≡ some rs
unfolding parse_round_price_ranges ranges_to_json
parse-ranges_to_json [] h = refl
parse-ranges_to_json (r ∷ rs) h = ground (arith, parse-ranges_to_json rs h.1)

-- Stakes keep the ranges ordered.
pub update_range_pool-Ordered :
    (rs : List RoundRange) (lo hi amount : ℕ)
    → All Ordered rs
    → All Ordered (update_range_pool rs lo hi amount)
unfolding update_range_pool
update_range_pool-Ordered [] lo hi amount h = tt
update_range_pool-Ordered (r ∷ rs) lo hi amount h =
    ground (arith, update_range_pool-Ordered rs lo hi amount h.1)

insert_by_min-total :
    (r : RoundRange) (rs : List RoundRange)
    → total_pool (insert_by_min r rs) ≡ r.pool + total_pool rs
insert_by_min-total r [] = refl
insert_by_min-total r (s ∷ rs) = ground (arith, insert_by_min-total r rs)

pub total_pool-sort : (rs : List RoundRange) → total_pool (sort_by_min rs) ≡ total_pool rs
unfolding sort_by_min
total_pool-sort [] = refl
total_pool-sort (r ∷ rs) = omega (arith, insert_by_min-total r (sort_by_min rs), total_pool-sort rs)
