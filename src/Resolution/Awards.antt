-- ===== src/Resolution/Awards.antt =====
-- What each prediction is paid, said without the loops of src/services/resolution.service.ts, and
-- that settlement pays it.
use xelma_backend.Base.{
  ℕ, ◌≡◌, refl, Bool, true, false, Option, none, some, Option-cases, inl, inr, List, [], ◌∷◌,
  Ordering, ok, pure, sum_by, arith, if◌then◌else◌,
}
use xelma_backend.Schema.{Prediction, Round, round_row, Side, ChainError}
use xelma_backend.Decimals.{DecimalApi, dec_eq}
use xelma_backend.PriceRange.{
  RoundRange, UserRange, parse_round_price_ranges, validate_user_price_range, sort_by_min,
  winning_range,
}
use xelma_backend.Resolution.Writes.{Settling, Settlement, apply_chain_result}
use xelma_backend.Resolution.UpDown.{
  has_side, payout_for, pay_side, by_movement, resolve_up_down_round,
}
use xelma_backend.Resolution.Legends.{
  sum_pools, picked, settle_pick, pay_range, by_winner, resolve_legends_round,
}
use xelma_backend.Resolution.Accounts.{
  Pays, Credited, owed, settle_one-Pays, refund_one-Pays, lose_one-Pays, for_each-Credited,
}

module _ (api : DecimalApi) (now : ℕ) (round : Round) where
  open api use {Decimal, dec, sub, cmp, to_number}

  -- The stake, as it is refunded.
  abbrev pub stake_back : Prediction → ℕ
  stake_back p = to_number (dec p.amount)

  -- A side that won shares the pools; an empty pool pays nobody.
  abbrev pub side_award : Side → (winning_pool losing_pool : ℕ) → Prediction → ℕ
  side_award side w l p =
      if dec_eq api (dec w) (dec 0)
      then 0
      else payout_for api now round (has_side api now round side p) (dec w) (dec l) p

  -- UP_DOWN: by how the final price compares with the start price.
  abbrev pub up_down_award : Ordering → Prediction → ℕ
  up_down_award Ordering.eq p = stake_back p
  up_down_award Ordering.gt p = side_award Side.up round.pool_up round.pool_down p
  up_down_award Ordering.lt p = side_award Side.down round.pool_down round.pool_up p

  sum_zero : (ps : List Prediction) → sum_by {A = Prediction} (λ p. 0) ps ≡ 0
  sum_zero [] = refl
  sum_zero (p ∷ ps) = omega (arith, sum_zero ps)

  owed_zero : (k : ℕ) (ps : List Prediction) → owed k (λ p. 0) ps ≡ 0
  unfolding owed
  owed_zero k [] = refl
  owed_zero k (p ∷ ps) = ground (arith, owed_zero k ps)

  -- A loop that is skipped under a test pays nothing then.
  skipped_if :
      (skip : Bool) (loop : Settlement) (amount : Prediction → ℕ) (ps : List Prediction)
      (s s' : Settling)
      → (loop s ≡ (ok tt, s') → Credited amount ps s.db.users s'.db.users)
      → (if skip then pure tt else loop) s ≡ (ok tt, s')
      → Credited (λ p. if skip then 0 else amount p) ps s.db.users s'.db.users
  skipped_if true loop amount ps s s' run h =
      (λ k. ground (arith, owed_zero k ps), ground (arith, sum_zero ps))
  skipped_if false loop amount ps s s' run h = run h

  pay_side-Credited :
      (side : Side) (w l : ℕ) (ps : List Prediction) (s s' : Settling)
      → pay_side api now round side w l ps s ≡ (ok tt, s')
      → Credited (side_award side w l) ps s.db.users s'.db.users
  unfolding pay_side
  pay_side-Credited side w l ps s s' h =
      skipped_if (dec_eq api (dec w) (dec 0)) _ _ ps s s'
        (for_each-Credited _ _ (λ p. settle_one-Pays api now round _ _ p) ps s s') h

  by_movement-Credited :
      (o : Ordering) (ps : List Prediction) (s s' : Settling)
      → by_movement api now round o ps s ≡ (ok tt, s')
      → Credited (up_down_award o) ps s.db.users s'.db.users
  unfolding by_movement
  by_movement-Credited Ordering.eq ps s s' h =
      for_each-Credited _ _ (refund_one-Pays api now round) ps s s' h
  by_movement-Credited Ordering.gt ps s s' h = pay_side-Credited _ _ _ ps s s' h
  by_movement-Credited Ordering.lt ps s s' h = pay_side-Credited _ _ _ ps s s' h

  -- Settling an UP_DOWN round, if it returns, credits every account exactly the awards of its
  -- predictions and raises the sum of all balances by the sum of the awards: stakes back if the
  -- price did not move, else the payouts of the side that won.
  pub resolve_up_down_round-Credited :
      (fail_closed : Bool) (failure : Option ChainError) (final_price : Decimal)
      (ps : List Prediction) (s s' : Settling)
      → resolve_up_down_round api now round fail_closed failure final_price ps s ≡ (ok tt, s')
      → Credited (up_down_award (cmp final_price (dec round.start_price))) ps s.db.users s'.db.users
  unfolding resolve_up_down_round apply_chain_result
  resolve_up_down_round-Credited c none final_price ps s s' h = by_movement-Credited _ ps s s' h
  resolve_up_down_round-Credited true (some e) final_price ps s s' h = cc
  resolve_up_down_round-Credited false (some e) final_price ps s s' h =
      by_movement-Credited _ ps s s' h

  -- LEGENDS, once the range that wins is known: a pick of that range shares the pools.
  abbrev pub pick_award : RoundRange → Decimal → Option UserRange → Prediction → ℕ
  pick_award winning l none p = 0
  pick_award winning l (some r) p =
      payout_for api now round (picked api now round winning r) (dec winning.pool) l p

  abbrev pub losing_pool : RoundRange → List RoundRange → Decimal
  losing_pool winning sorted = sub (sum_pools api now round (dec 0) sorted) (dec winning.pool)

  abbrev pub legends_award : Option RoundRange → List RoundRange → Prediction → ℕ
  legends_award none sorted p = stake_back p
  legends_award (some winning) sorted p =
      if dec_eq api (dec winning.pool) (dec 0)
      then 0
      else pick_award winning (losing_pool winning sorted) (validate_user_price_range p.price_range)
          p

  settle_pick-Pays :
      (winning : RoundRange) (l : Decimal) (pick : Option UserRange) (p : Prediction)
      → Pays
          (settle_pick api now round winning (dec winning.pool) l pick p)
          p.user_id
          (pick_award winning l pick p)
  unfolding settle_pick
  settle_pick-Pays winning l none p s s' h = (λ k. ground arith, ground arith)
  settle_pick-Pays winning l (some r) p s s' h = settle_one-Pays api now round _ _ p s s' h

  lost_or :
      (empty : Bool) (lose pay : Settlement) (amount : Prediction → ℕ) (ps : List Prediction)
      (s s' : Settling)
      → (lose s ≡ (ok tt, s') → Credited (λ p. 0) ps s.db.users s'.db.users)
      → (pay s ≡ (ok tt, s') → Credited amount ps s.db.users s'.db.users)
      → (if empty then lose else pay) s ≡ (ok tt, s')
      → Credited (λ p. if empty then 0 else amount p) ps s.db.users s'.db.users
  lost_or true lose pay amount ps s s' a b h = a h
  lost_or false lose pay amount ps s s' a b h = b h

  by_winner-Credited :
      (w : Option RoundRange) (sorted : List RoundRange) (ps : List Prediction) (s s' : Settling)
      → by_winner api now round w sorted ps s ≡ (ok tt, s')
      → Credited (legends_award w sorted) ps s.db.users s'.db.users
  unfolding pay_range
  by_winner-Credited none sorted ps s s' h =
      for_each-Credited _ _ (refund_one-Pays api now round) ps s s' h
  by_winner-Credited (some w) sorted ps s s' h =
      lost_or (dec_eq api (dec w.pool) (dec 0)) _ _ _ ps s s'
        (for_each-Credited _ _ (lose_one-Pays api now round) ps s s')
        (for_each-Credited _ _ (λ p. settle_pick-Pays w _ _ p) ps s s') h

  -- Settling a LEGENDS round, if it returns, has read ranges from its column and credits every
  -- account exactly the awards of its predictions: stakes back if no range holds the price, nothing
  -- if the winning range has no stakes, else the payouts of the picks of the winning range.
  pub resolve_legends_round-Credited :
      (final_price : Decimal) (ps : List Prediction) (s s' : Settling)
      → resolve_legends_round api now round final_price ps s ≡ (ok tt, s')
      → (ranges : List RoundRange) × (parse_round_price_ranges round.price_ranges ≡ some ranges)
        × Credited
            (legends_award
              (winning_range api final_price (sort_by_min ranges))
              (sort_by_min ranges))
            ps
            s.db.users
            s'.db.users
  unfolding resolve_legends_round
  resolve_legends_round-Credited final_price ps s s' h =
      elim (Option-cases (parse_round_price_ranges round.price_ranges)) [
        | inl broken ↦ absurd (ground arith)
        | inr (ranges, e) ↦ (ranges, e, by_winner-Credited _ _ ps s s' (ground arith))
      ]
