-- ===== src/PriceRange/Ranges.antt =====
-- Ranges read from JSON, looked up by their bounds, and written back.
use xelma_backend.Base.{
  ℕ, ◌+◌, Bool, true, false, ◌&&◌, ◌==◌, ltb, leb, Option, none, some, List, [], ◌∷◌, map,
  find_first, if◌then◌else◌,
}
use xelma_backend.Decimals.{DecimalApi, is_gte, is_lte, is_lt}
use xelma_backend.Schema.{RangeJson, RangesJson, array, other}

-- RoundPriceRange
pub record RoundRange : Type 0 where
  pub min : ℕ
  pub max : ℕ
  pub pool : ℕ

-- UserPriceRange
pub record UserRange : Type 0 where
  pub min : ℕ
  pub max : ℕ

abbrev make_round_range : ℕ → ℕ → ℕ → Option RoundRange
make_round_range lo hi pool =
    if ltb lo hi then some (record { min = lo; max = hi; pool = pool }) else none

-- `isRoundPriceRange`, with the range that it vouches for.
unfoldable pub read_round_range : RangeJson → Option RoundRange
read_round_range j = elim j.min [
  | none ↦ none
  | some lo ↦ elim j.max [
    | none ↦ none
    | some hi ↦ elim j.pool [ none ↦ none | some pool ↦ make_round_range lo hi pool ]
  ]
]

abbrev cons? : Option RoundRange → Option (List RoundRange) → Option (List RoundRange)
cons? none rs = none
cons? (some r) none = none
cons? (some r) (some rs) = some (r ∷ rs)

-- `isRoundPriceRangeArray` on the elements
unfoldable pub read_round_ranges : List RangeJson → Option (List RoundRange)
unfolding read_round_range
read_round_ranges [] = some []
read_round_ranges (j ∷ js) = cons? (read_round_range j) (read_round_ranges js)

-- `parseRoundPriceRanges`; `none` is its throw.
unfoldable pub parse_round_price_ranges : RangesJson → Option (List RoundRange)
unfolding read_round_ranges
parse_round_price_ranges (array js) = read_round_ranges js
parse_round_price_ranges other = none

-- What is written back to the column.
abbrev pub range_to_json : RoundRange → RangeJson
range_to_json r = record { min = some r.min; max = some r.max; pool = some r.pool }

unfoldable pub ranges_to_json : List RoundRange → RangesJson
ranges_to_json rs = array (map range_to_json rs)

abbrev make_user_range : ℕ → ℕ → Option UserRange
make_user_range lo hi = if ltb lo hi then some (record { min = lo; max = hi }) else none

-- `validateUserPriceRange`: numeric `min` and `max` with min < max; `none` is `valid: false`.
unfoldable pub validate_user_price_range : Option RangeJson → Option UserRange
validate_user_price_range none = none
validate_user_price_range (some j) = elim j.min [
  | none ↦ none
  | some lo ↦ elim j.max [ none ↦ none | some hi ↦ make_user_range lo hi ]
]

-- `r.min === min && r.max === max`
abbrev pub has_bounds : ℕ → ℕ → RoundRange → Bool
has_bounds lo hi r = r.min == lo && r.max == hi

unfoldable pub find_range_by_bounds : List RoundRange → ℕ → ℕ → Option RoundRange
find_range_by_bounds rs lo hi = find_first (has_bounds lo hi) rs

unfoldable pub update_range_pool : List RoundRange → (min max amount : ℕ) → List RoundRange
update_range_pool [] lo hi amount = []
update_range_pool (r ∷ rs) lo hi amount =
    (if has_bounds lo hi r then record r { pool = r.pool + amount } else r)
    ∷ update_range_pool rs lo hi amount

-- `[...ranges].sort((a, b) => a.min - b.min)`, which is stable.
abbrev pub insert_by_min : RoundRange → List RoundRange → List RoundRange
insert_by_min r [] = r ∷ []
insert_by_min r (s ∷ rs) = if leb r.min s.min then r ∷ s ∷ rs else s ∷ insert_by_min r rs

unfoldable pub sort_by_min : List RoundRange → List RoundRange
sort_by_min [] = []
sort_by_min (r ∷ rs) = insert_by_min r (sort_by_min rs)

abbrev pub is_nil : List RoundRange → Bool
is_nil [] = true
is_nil (r ∷ rs) = false

-- The winning range of `resolveLegendsRound` (src/services/resolution.service.ts) among the sorted
-- ranges: the lower bound is inclusive, the upper one exclusive but for the last range.
module _ (api : DecimalApi) (final_price : api.Decimal) where
  open api use {dec, cmp}

  abbrev pub in_range : Bool → RoundRange → Bool
  in_range true r = is_gte (cmp final_price (dec r.min)) && is_lte (cmp final_price (dec r.max))
  in_range false r = is_gte (cmp final_price (dec r.min)) && is_lt (cmp final_price (dec r.max))

  unfoldable pub winning_range : List RoundRange → Option RoundRange
  winning_range [] = none
  winning_range (r ∷ rs) = if in_range (is_nil rs) r then some r else winning_range rs
