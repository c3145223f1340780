-- ===== src/Predictions/Picks.antt =====
-- The pick, the row and the earlier prediction of a reservation of src/services/prediction.service.ts,
-- said without its own checks.
use mathlib.Core.List.{Memᴰ}
use xelma_backend.Base.{
  ℕ, ◌<◌, ◌≡◌, inl, inr, refl, sym, Bool, true, Bool-cases, Option, none, some, Option-cases, List,
  [], ◌∷◌, find, find_first, find-update_self, find-append, arith, ◌≤◌,
}
use xelma_backend.PriceRange.{
  RoundRange, parse_round_price_ranges, validate_user_price_range, find_range_by_bounds, has_bounds,
}
use xelma_backend.Schema.{
  user_row, Round, round_row, GameMode, Side, RangeJson, Prediction, prediction_row, ChainStatus,
  Db,
}
use xelma_backend.Predictions.Reserving.{
  PredictionInput, is_of, check_existing, check_pick, target_status, reuse_row, new_row,
}
use xelma_backend.Predictions.Rows.{IsSound, find-find_first}
use xelma_backend.Predictions.Funds.{IsInOrder}
use xelma_backend.Predictions.Charging.{RowWritten}

-- No earlier prediction stands in the way.
abbrev pub IsFree : Option Prediction → Type 0
IsFree none = Unit
IsFree (some p) = p.chain_status ≡ ChainStatus.failed

-- What the row says of the pick, by the mode of the round: a side, or the bounds of a range that the
-- round offers.
abbrev pub Picked : GameMode → PredictionInput → Round → Prediction → Type 0
Picked GameMode.up_down input round row =
    (row.chain_status ≡ ChainStatus.pending)
    × (s : Side) × (input.side ≡ some s)
    × (row.side ≡ some s)
Picked GameMode.legends input round row =
    (row.chain_status ≡ ChainStatus.not_required)
    × (lo : ℕ) × (hi : ℕ) × (lo < hi)
    × (row.price_range ≡ some (record { min = some lo; max = some hi; pool = none }))
    × (rs : List RoundRange) × (parse_round_price_ranges round.price_ranges ≡ some rs)
    × (r : RoundRange) × Memᴰ r rs
    × (r.min ≡ lo)
    × (r.max ≡ hi)

find_first_lem :
    {A : Type 0} (q : A → Bool) (x : A) (xs : List A)
    → find_first q xs ≡ some x
    → Memᴰ x xs × (q x ≡ true)
find_first_lem q x [] e = cc
find_first_lem q x (y ∷ ys) e = elim (Bool-cases (q y)) [
  | inl hit ↦ let same : y ≡ x = ground arith in (Memᴰ.head (sym same), rw same at hit)
  | inr miss ↦ let (there, holds) = find_first_lem q x ys (ground arith) in (Memᴰ.tail there, holds)
]

pub free : (o : Option Prediction) → check_existing o ≡ none → IsFree o
unfolding check_existing
free none e = tt
free (some p) e = ground arith

-- The bounds of a pick that passed, and the range of the round that has them.
fits_legends :
    (input : PredictionInput) (round : Round)
    → round.mode ≡ GameMode.legends
    → check_pick input round ≡ none
    → (lo : ℕ) × (hi : ℕ) × (j : RangeJson) × (input.price_range ≡ some j)
      × (j.min ≡ some lo)
      × (j.max ≡ some hi)
      × (lo < hi)
      × (rs : List RoundRange) × (parse_round_price_ranges round.price_ranges ≡ some rs)
      × (r : RoundRange) × (find_first (has_bounds lo hi) rs ≡ some r)
unfolding check_pick validate_user_price_range find_range_by_bounds
fits_legends input round mode fits = elim (Option-cases input.price_range) [
  | inl gone ↦ absurd (ground arith)
  | inr (j, given) ↦ elim (Option-cases j.min) [
    | inl gone ↦ absurd (ground arith)
    | inr (lo, low) ↦ elim (Option-cases j.max) [
      | inl gone ↦ absurd (ground arith)
      | inr (hi, high) ↦ elim (Option-cases (parse_round_price_ranges round.price_ranges)) [
        | inl gone ↦ absurd (ground arith)
        | inr (rs, read) ↦ elim (Option-cases (find_first (has_bounds lo hi) rs)) [
          | inl gone ↦ absurd (ground arith)
          | inr (r, there) ↦ (lo, hi, j, given, low, high, ground arith, rs, read, r, there)
        ]
      ]
    ]
  ]
]

-- A row that holds what the input says.
abbrev pub HasInput :
    (input : PredictionInput) (amount : ℕ) (mode : GameMode) (row : Prediction) → Type 0
HasInput input amount mode row =
    (row.chain_status ≡ target_status mode)
    × (row.user_id ≡ input.user_id)
    × (row.round_id ≡ input.round_id)
    × (row.amount ≡ amount)
    × (row.compensated_at ≡ none)
    × (row.won ≡ none)
    × ((s : Side) → input.side ≡ some s → row.side ≡ some s)
    × ((j : RangeJson)
        → input.price_range ≡ some j
        → row.price_range ≡ some (record { min = j.min; max = j.max; pool = none }))

pub row-HasInput :
    (now : ℕ) (input : PredictionInput) (amount : ℕ) (mode : GameMode)
    (existing : Option Prediction) (row : Prediction) (db db' : Db)
    → find_first (is_of input.round_id input.user_id) db.predictions ≡ existing
    → RowWritten now input amount (target_status mode) existing row db db'
    → HasInput input amount mode row
unfolding new_row reuse_row
row-HasInput now input amount mode none row db db' found (is, written, next) =
    rw is (refl, refl, refl, refl, refl, refl, (λ s e. e), λ j e. rw e refl)
row-HasInput now input amount mode (some q) row db db' found (is, written, next) =
    let (there, of) = find_first_lem (is_of input.round_id input.user_id) q db.predictions found in
    rw is (refl, ground arith, ground arith, refl, refl, refl, (λ s e. rw e refl), λ j e. rw e refl)

none_above : (n m : ℕ) (ps : List Prediction) → n ≤ m → IsSound n ps → find m ps ≡ none
unfolding IsSound
none_above n m [] le h = refl
none_above n m (p ∷ ps) le h = ground (arith, none_above n m ps le h.3)

pub row_stored :
    (now : ℕ) (input : PredictionInput) (amount : ℕ) (status : ChainStatus)
    (existing : Option Prediction) (row : Prediction) (db db' : Db)
    → IsInOrder db
    → find_first (is_of input.round_id input.user_id) db.predictions ≡ existing
    → RowWritten now input amount status existing row db db'
    → find row.id db'.predictions ≡ some row
unfolding new_row reuse_row
row_stored now input amount status none row db db' h found (is, written, next) =
    let fresh = none_above db.next_id db.next_id db.predictions (omega arith) h in
    rw (written, is)
      (ground (
        arith,
        find-append db.next_id db.predictions (new_row now input amount status db.next_id) fresh,
      ))
row_stored now input amount status (some q) row db db' h found (is, written, next) =
    rw (written, is)
      (find-update_self q.id (reuse_row input amount status) q db.predictions (λ c. refl)
        (find-find_first db.next_id (is_of input.round_id input.user_id) q db.predictions h found))

pub picked :
    (input : PredictionInput) (amount : ℕ) (round : Round) (row : Prediction) (mode : GameMode)
    → round.mode ≡ mode
    → check_pick input round ≡ none
    → HasInput input amount mode row
    → Picked mode input round row
unfolding check_pick
picked input amount round row GameMode.up_down is fits (status, u, r, a, c, w, side, range) =
    elim (Option-cases input.side) [
      | inl gone ↦ absurd (ground arith)
      | inr (s, given) ↦ (status, s, given, side s given)
    ]
picked input amount round row GameMode.legends is fits (status, u, r, a, c, w, side, range) =
    let (lo, hi, j, given, low, high, lt, rs, read, b, there) = fits_legends input round is fits in
    let (mem, bounds) = find_first_lem (has_bounds lo hi) b rs there in
    (
      status,
      lo,
      hi,
      lt,
      rw (low, high) at (range j given),
      rs,
      read,
      b,
      mem,
      ground arith,
      ground arith,
    )
