-- ===== src/Resolution/Legends.antt =====
-- `resolveLegendsRound` of src/services/resolution.service.ts.
use xelma_backend.Base.{
  ℕ, Bool, true, false, ◌&&◌, not, Option, none, some, List, [], ◌∷◌, pure, throw_if, or_throw,
  for_each, ◌>>=◌, ◌>>◌, ltb, if◌then◌else◌,
}
use xelma_backend.Decimals.{DecimalApi, dec_add, dec_eq}
use xelma_backend.Schema.{Prediction, Round, Error}
use xelma_backend.PriceRange.{
  RoundRange, UserRange, parse_round_price_ranges, validate_user_price_range, sort_by_min, is_nil,
  winning_range,
}
use xelma_backend.Resolution.Writes.{Settlement, update_prediction, update_user, close_bet}
use xelma_backend.Resolution.UpDown.{refund_one, announce, settle_one, payout_for}

-- `isValidRange`, on numbers that are finite
abbrev pub all_valid : List RoundRange → Bool
all_valid [] = true
all_valid (r ∷ rs) = ltb r.min r.max && all_valid rs

module _ (api : DecimalApi) (now : ℕ) (round : Round) where
  open api use {Decimal, dec, sub, cmp}

  -- The winning range had no stakes: everyone loses.
  unfoldable pub lose_one : Prediction → Settlement
  lose_one p =
      update_prediction p.id (λ q. record q { won = some false; payout = some 0 })
      >> (update_user p.user_id (λ u. record u { streak = 0 })
          >> (close_bet now p.user_id round.id false 0
              >> announce api now round p.user_id false none))

  -- `sortedRanges.reduce((sum, range) => decAdd(sum, range.pool), toDecimal(0))`
  unfoldable pub sum_pools : Decimal → List RoundRange → Decimal
  sum_pools acc [] = acc
  sum_pools acc (r ∷ rs) = sum_pools (dec_add api acc (dec r.pool)) rs

  abbrev pub picked : RoundRange → UserRange → Bool
  picked winning r =
      dec_eq api (dec r.min) (dec winning.min) && dec_eq api (dec r.max) (dec winning.max)

  abbrev pub has_won : RoundRange → Option UserRange → Bool
  has_won winning none = false
  has_won winning (some r) = picked winning r

  -- A prediction whose stored range does not parse is skipped.
  unfoldable pub settle_pick :
      (winning : RoundRange) (winning_pool losing_pool : Decimal)
      → Option UserRange
      → Prediction
      → Settlement
  settle_pick winning w l none p = pure tt
  settle_pick winning w l (some r) p =
      settle_one api now round (picked winning r)
        (payout_for api now round (picked winning r) w l p) p

  unfoldable pub pay_range : RoundRange → List RoundRange → List Prediction → Settlement
  pay_range winning sorted predictions =
      let winning_pool = dec winning.pool in
      let losing_pool = sub (sum_pools (dec 0) sorted) winning_pool in
      if dec_eq api winning_pool (dec 0)
      then for_each lose_one predictions
      else for_each
          (λ p.
            settle_pick winning winning_pool losing_pool (validate_user_price_range p.price_range)
              p)
          predictions

  abbrev pub by_winner : Option RoundRange → List RoundRange → List Prediction → Settlement
  by_winner none sorted predictions = for_each (refund_one api now round) predictions
  by_winner (some winning) sorted predictions = pay_range winning sorted predictions

  unfoldable pub resolve_legends_round : (final_price : Decimal) → List Prediction → Settlement
  resolve_legends_round final_price predictions = do
    ranges ←
        or_throw (parse_round_price_ranges round.price_ranges)
          (Error.plain "Invalid round price ranges: expected RoundPriceRange[]")
    throw_if (is_nil ranges) (Error.validation "LEGENDS round has no configured price ranges")
    throw_if (not (all_valid ranges))
        (Error.validation "LEGENDS round has invalid price range data")
    by_winner (winning_range api final_price (sort_by_min ranges)) (sort_by_min ranges) predictions
