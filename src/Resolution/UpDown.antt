-- ===== src/Resolution/UpDown.antt =====
-- `resolveUpDownRound` of src/services/resolution.service.ts.
use xelma_backend.Base.{
  ℕ, ◌+◌, Bool, false, Option, none, some, List, Ordering, pure, for_each, ◌>>◌, if◌then◌else◌,
}
use xelma_backend.Decimals.{DecimalApi, calculate_payout, dec_eq}
use xelma_backend.Schema.{User, Prediction, Round, Side, side_eq, Payload, Room, ChainError}
use xelma_backend.Resolution.Writes.{
  Settlement, update_prediction, update_user, close_bet, queue_event, kind_of, apply_chain_result,
}

module _ (api : DecimalApi) (now : ℕ) (round : Round) where
  open api use {Decimal, dec, cmp, to_number}

  -- A refund: the stake comes back, and the bet is resolved with `won` false.
  unfoldable pub refund_one : Prediction → Settlement
  refund_one p =
      let refund_amount = to_number (dec p.amount) in
      update_prediction p.id (λ q. record q { won = none; payout = some refund_amount })
      >> (update_user p.user_id
            (λ u. record u { virtual_balance = u.virtual_balance + refund_amount })
          >> close_bet now p.user_id round.id false refund_amount)

  abbrev pub credit : Bool → ℕ → User → User
  credit won payout u = record u {
    virtual_balance = u.virtual_balance + payout;
    wins = u.wins + (if won then 1 else 0);
    streak = if won then u.streak + 1 else 0;
  }

  -- The two outbox rows of a settled prediction.
  unfoldable pub announce : (user_id : ℕ) (won : Bool) (amount : Option ℕ) → Settlement
  announce user_id won amount =
      queue_event round.id (Payload.notification user_id (kind_of won) round.id amount)
      >> queue_event round.id
          (Payload.notification_new (Room.of_user user_id) user_id (kind_of won) round.id amount)

  -- What one settled prediction writes, once it is known whether it won and what it pays.
  unfoldable pub settle_one : (won : Bool) (payout : ℕ) → Prediction → Settlement
  settle_one won payout p =
      update_prediction p.id (λ q. record q { won = some won; payout = some payout })
      >> (update_user p.user_id (credit won payout)
          >> (close_bet now p.user_id round.id won payout >> announce p.user_id won (some payout)))

  abbrev pub has_side : Side → Prediction → Bool
  has_side side p = elim p.side [ none ↦ false | some s ↦ side_eq s side ]

  -- `won ? calculatePayout(predAmount, winningPool, losingPool) : toDecimal(0)`, as a number
  unfoldable pub payout_for : (won : Bool) (winning_pool losing_pool : Decimal) → Prediction → ℕ
  payout_for won winning_pool losing_pool p =
      to_number
        (if won then calculate_payout api (dec p.amount) winning_pool losing_pool else dec 0)

  -- The payouts of a side that won.
  unfoldable pub pay_side : Side → (winning_pool losing_pool : ℕ) → List Prediction → Settlement
  pay_side side winning_pool losing_pool predictions =
      if dec_eq api (dec winning_pool) (dec 0)
      then pure tt
      else for_each
          (λ p.
            settle_one (has_side side p)
              (payout_for (has_side side p) (dec winning_pool) (dec losing_pool) p) p)
          predictions

  -- The three ways that the price can have moved.
  unfoldable pub by_movement : Ordering → List Prediction → Settlement
  by_movement Ordering.eq predictions = for_each refund_one predictions
  by_movement Ordering.gt predictions = pay_side Side.up round.pool_up round.pool_down predictions
  by_movement Ordering.lt predictions = pay_side Side.down round.pool_down round.pool_up predictions

  unfoldable pub resolve_up_down_round :
      (fail_closed : Bool) (failure : Option ChainError) (final_price : Decimal)
      → List Prediction
      → Settlement
  resolve_up_down_round fail_closed failure final_price predictions =
      apply_chain_result fail_closed failure
      >> by_movement (cmp final_price (dec round.start_price)) predictions
