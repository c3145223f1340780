-- ===== src/Resolution/Untouched.antt =====
-- Payouts leave the rounds alone: src/services/resolution.service.ts.
use xelma_backend.Base.{
  ℕ, ◌+◌, ◌≡◌, refl, Bool, true, false, Ordering, Option, none, some, Option-cases, inl, inr, List,
  then-Fixes, for_each-Fixes, if-Fixes, for_each, arith, pure, ◌>>◌,
}
use xelma_backend.Schema.{
  User, Prediction, Round, round_row, Side, ChainError, user_row, prediction_row,
}
use xelma_backend.Decimals.{DecimalApi, dec_eq}
use xelma_backend.Bets.{resolve_bet, create_event}
use xelma_backend.PriceRange.{
  RoundRange, UserRange, parse_round_price_ranges, sort_by_min, winning_range,
  validate_user_price_range,
}
use xelma_backend.Resolution.Writes.{
  Settling, Settlement, update_prediction, update_user, close_bet, queue_event, apply_chain_result,
}
use xelma_backend.Resolution.UpDown.{
  refund_one, credit, announce, has_side, payout_for, settle_one, pay_side, by_movement,
  resolve_up_down_round,
}
use xelma_backend.Resolution.Legends.{
  lose_one, sum_pools, settle_pick, pay_range, by_winner, resolve_legends_round,
}

abbrev rounds_of : Settling → List Round
rounds_of s = s.db.rounds

abbrev KeepsRounds : Settlement → Type 0
KeepsRounds step = (s : Settling) → rounds_of (step s).1 ≡ rounds_of s

close_bet-Fixes :
    (now user_id round_id : ℕ) (won : Bool) (payout : ℕ)
    → KeepsRounds (close_bet now user_id round_id won payout)
unfolding close_bet resolve_bet create_event
close_bet-Fixes now user_id round_id won payout s = ground arith

update_prediction-Fixes :
    (id : ℕ) (f : Prediction → Prediction) → KeepsRounds (update_prediction id f)
unfolding update_prediction
update_prediction-Fixes id f s = ground arith

update_user-Fixes : (id : ℕ) (f : User → User) → KeepsRounds (update_user id f)
unfolding update_user
update_user-Fixes id f s = ground arith

module _ (api : DecimalApi) (now : ℕ) (round : Round) where
  announce-Fixes :
      (user_id : ℕ) (won : Bool) (amount : Option ℕ)
      → KeepsRounds (announce api now round user_id won amount)
  unfolding announce queue_event
  announce-Fixes user_id won amount s = refl

  three-Fixes :
      (a b c : Settlement)
      → KeepsRounds a
      → KeepsRounds b
      → KeepsRounds c
      → KeepsRounds (a >> (b >> c))
  three-Fixes a b c ka kb kc = then-Fixes rounds_of a (b >> c) ka (then-Fixes rounds_of b c kb kc)

  four-Fixes :
      (a b c d : Settlement)
      → KeepsRounds a
      → KeepsRounds b
      → KeepsRounds c
      → KeepsRounds d
      → KeepsRounds (a >> (b >> (c >> d)))
  four-Fixes a b c d ka kb kc kd =
      then-Fixes rounds_of a (b >> (c >> d)) ka (three-Fixes b c d kb kc kd)

  settle_one-Fixes :
      (won : Bool) (payout : ℕ) (p : Prediction)
      → KeepsRounds (settle_one api now round won payout p)
  unfolding settle_one
  settle_one-Fixes won payout p =
      four-Fixes (update_prediction p.id (λ q. record q { won = some won; payout = some payout }))
        (update_user p.user_id (credit api now round won payout))
        (close_bet now p.user_id round.id won payout)
        (announce api now round p.user_id won (some payout)) (update_prediction-Fixes _ _)
        (update_user-Fixes _ _) (close_bet-Fixes _ _ _ _ _) (announce-Fixes _ _ _)

  refund_one-Fixes : (p : Prediction) → KeepsRounds (refund_one api now round p)
  unfolding refund_one
  refund_one-Fixes p =
      let back = api.to_number (api.dec p.amount) in
      three-Fixes (update_prediction p.id (λ q. record q { won = none; payout = some back }))
        (update_user p.user_id (λ u. record u { virtual_balance = u.virtual_balance + back }))
        (close_bet now p.user_id round.id false back) (update_prediction-Fixes _ _)
        (update_user-Fixes _ _) (close_bet-Fixes _ _ _ _ _)

  lose_one-Fixes : (p : Prediction) → KeepsRounds (lose_one api now round p)
  unfolding lose_one
  lose_one-Fixes p =
      four-Fixes (update_prediction p.id (λ q. record q { won = some false; payout = some 0 }))
        (update_user p.user_id (λ u. record u { streak = 0 }))
        (close_bet now p.user_id round.id false 0) (announce api now round p.user_id false none)
        (update_prediction-Fixes _ _) (update_user-Fixes _ _) (close_bet-Fixes _ _ _ _ _)
        (announce-Fixes _ _ _)

  pay_side-Fixes :
      (side : Side) (w l : ℕ) (ps : List Prediction)
      → KeepsRounds (pay_side api now round side w l ps)
  unfolding pay_side
  pay_side-Fixes side w l ps =
      let pay : Prediction → Settlement = λ p.
        settle_one api now round (has_side api now round side p)
          (payout_for api now round (has_side api now round side p) (api.dec w) (api.dec l) p) p in
      if-Fixes rounds_of (dec_eq api (api.dec w) (api.dec 0)) (pure tt) (for_each pay ps)
        (λ s. refl) (for_each-Fixes rounds_of pay (λ p. settle_one-Fixes _ _ p) ps)

  by_movement-Fixes :
      (o : Ordering) (ps : List Prediction) → KeepsRounds (by_movement api now round o ps)
  unfolding by_movement
  by_movement-Fixes Ordering.eq ps =
      for_each-Fixes rounds_of (refund_one api now round) refund_one-Fixes ps
  by_movement-Fixes Ordering.gt ps = pay_side-Fixes _ _ _ ps
  by_movement-Fixes Ordering.lt ps = pay_side-Fixes _ _ _ ps

  apply_chain_result-Fixes :
      (c : Bool) (failure : Option ChainError) → KeepsRounds (apply_chain_result c failure)
  unfolding apply_chain_result
  apply_chain_result-Fixes c none s = refl
  apply_chain_result-Fixes true (some e) s = refl
  apply_chain_result-Fixes false (some e) s = refl

  settle_pick-Fixes :
      (r : RoundRange) (w l : api.Decimal) (pick : Option UserRange) (p : Prediction)
      → KeepsRounds (settle_pick api now round r w l pick p)
  unfolding settle_pick
  settle_pick-Fixes r w l none p s = refl
  settle_pick-Fixes r w l (some pick) p s = settle_one-Fixes _ _ p s

  by_winner-Fixes :
      (w : Option RoundRange) (sorted : List RoundRange) (ps : List Prediction)
      → KeepsRounds (by_winner api now round w sorted ps)
  unfolding pay_range
  by_winner-Fixes none sorted ps =
      for_each-Fixes rounds_of (refund_one api now round) refund_one-Fixes ps
  by_winner-Fixes (some w) sorted ps =
      let pay : Prediction → Settlement = λ p.
        settle_pick api now round w (api.dec w.pool)
          (api.sub (sum_pools api now round (api.dec 0) sorted) (api.dec w.pool))
          (validate_user_price_range p.price_range) p in
      if-Fixes rounds_of (dec_eq api (api.dec w.pool) (api.dec 0))
        (for_each (lose_one api now round) ps) (for_each pay ps)
        (for_each-Fixes rounds_of (lose_one api now round) lose_one-Fixes ps)
        (for_each-Fixes rounds_of pay (λ p. settle_pick-Fixes w _ _ _ p) ps)

  pub resolve_up_down_round-Fixes :
      (c : Bool) (failure : Option ChainError) (price : api.Decimal) (ps : List Prediction)
      → KeepsRounds (resolve_up_down_round api now round c failure price ps)
  unfolding resolve_up_down_round
  resolve_up_down_round-Fixes c failure price ps =
      then-Fixes rounds_of (apply_chain_result c failure)
        (by_movement api now round (api.cmp price (api.dec round.start_price)) ps)
        (apply_chain_result-Fixes c failure) (by_movement-Fixes _ ps)

  pub resolve_legends_round-Fixes :
      (price : api.Decimal) (ps : List Prediction)
      → KeepsRounds (resolve_legends_round api now round price ps)
  unfolding resolve_legends_round
  resolve_legends_round-Fixes price ps s =
      elim (Option-cases (parse_round_price_ranges round.price_ranges)) [
        | inl broken ↦ ground arith
        | inr (ranges, e) ↦ ground (
          arith,
          by_winner-Fixes (winning_range api price (sort_by_min ranges)) (sort_by_min ranges) ps s,
        )
      ]
