-- ===== src/Bets/Placement.antt =====
-- What recording a bet leaves in the database.
use xelma_backend.Base.{
  ℕ, ◌≡◌, ◌<◌, ◌≤◌, ◌==◌, inl, inr, refl, Bool, true, false, Option, none, some, Option-cases, List,
  [], ◌∷◌, ◌++◌, Result, ok, err, arith, find, find-update_self, find-append, key-find, find_fresh,
  All, find_first, after, after_transaction,
}
use xelma_backend.Schema.{Bet, bet_row, User, Round, round_row, GameMode, Db, Error, ChainError}
use xelma_backend.Bets.Placing.{
  BetInput, BetResult, Placed, submit_bet, record_bet, record_bet_body, place_bet, new_bet,
  submitted_row, resolve_round_id, get_or_create_user_id,
}

-- What the caller sees when the chain call throws: the round's own error comes first.
abbrev pub placing_error : Result Error (Option ℕ) → ChainError → Error
placing_error (ok round_id) e = Error.chain e
placing_error (err x) e = x

-- A bet whose chain call throws leaves no trace: the FAILED row and its BET_FAILED event are taken
-- back with the transaction that they were written in.
pub record_bet_failure_rolls_back :
    (now : ℕ) (mode : GameMode) (e : ChainError) (input : BetInput) (db : Db)
    → record_bet now false mode (err e) input db
      ≡ (err (placing_error (resolve_round_id mode input.round_id db).0 e), db)
unfolding record_bet submit_bet
record_bet_failure_rolls_back now mode e input db = ground arith

-- Looking for the round writes nothing, and finds one of the asked mode.
abbrev IsOfMode : GameMode → List Round → Option ℕ → Type 0
IsOfMode mode rounds none = Unit
IsOfMode mode rounds (some k) = (r : Round) × (find k rounds ≡ some r) × (r.mode ≡ mode)

pub resolve_round_id_reads :
    (mode : GameMode) (asked : Option ℕ) (db : Db) → (resolve_round_id mode asked db).1 ≡ db
unfolding resolve_round_id
resolve_round_id_reads mode none db = refl
resolve_round_id_reads mode (some k) db = ground arith

asked_round :
    (mode : GameMode) (k : ℕ) (found : Option ℕ) (db : Db)
    → (resolve_round_id mode (some k) db).0 ≡ ok found
    → (found ≡ some k) × IsOfMode mode db.rounds (some k)
unfolding resolve_round_id
asked_round mode k found db h = elim (Option-cases (find k db.rounds)) [
  | inl gone ↦ absurd (ground arith)
  | inr (r, e) ↦ (ground (arith, key-find k r db.rounds e), (r, e, ground arith))
]

-- Every identifier in use was given out.
abbrev pub IsFresh : Db → Type 0
IsFresh db = All (λ (b : Bet). b.id < db.next_id) db.bets

user_step :
    (address : ℕ) (db : Db)
    → (id : ℕ) × ((get_or_create_user_id address db).0 ≡ ok id)
      × ((get_or_create_user_id address db).1.bets ≡ db.bets)
      × (db.next_id ≤ (get_or_create_user_id address db).1.next_id)
unfolding get_or_create_user_id
user_step address db =
    elim (Option-cases (find_first (λ (u : User). u.wallet_address == address) db.users)) [
      | inl unknown ↦ (db.next_id, ground arith, ground arith, ground arith)
      | inr (u, e) ↦ (u.id, ground arith, ground arith, ground arith)
    ]

-- The row that a successful call leaves behind.
abbrev pub Recorded : BetInput → Result Error BetResult × Db → Type 0
Recorded input (ok res, db') =
    (b : Bet) × (find res.bet_id db'.bets ≡ some b)
    × (b.status ≡ res.status)
    × (b.tx_hash ≡ res.tx_hash)
    × (b.amount ≡ input.amount)
Recorded input (err e, db') = Unit

place_bet-Recorded :
    (now : ℕ) (stub : Bool) (mode : GameMode) (chain : Result ChainError Placed) (input : BetInput)
    (user_id : ℕ) (round_id : Option ℕ) (db : Db)
    → find db.next_id db.bets ≡ none
    → Recorded input (place_bet now stub mode chain input user_id round_id db)
unfolding place_bet
place_bet-Recorded now true mode chain input user_id round_id db free =
    let bet = new_bet mode input user_id round_id db.next_id in
    (bet, ground (arith, find-append db.next_id db.bets bet free), refl, refl, refl)
place_bet-Recorded now false mode (ok placed) input user_id round_id db free =
    let bet = new_bet mode input user_id round_id db.next_id in
    let there : find db.next_id (db.bets ++ bet ∷ []) ≡ some bet =
      ground (arith, find-append db.next_id db.bets bet free) in
    (
      submitted_row now placed.tx_hash bet,
      find-update_self db.next_id (submitted_row now placed.tx_hash) bet (db.bets ++ bet ∷ [])
          (λ x. refl) there,
      refl,
      refl,
      refl,
    )
place_bet-Recorded now false mode (err e) input user_id round_id db free = tt

free_id :
    (mode : GameMode) (input : BetInput) (db : Db)
    → IsFresh db
    → (round_id : Option ℕ) (s : Db) → resolve_round_id mode input.round_id db ≡ (ok round_id, s)
    → (user_id : ℕ) (s' : Db) → get_or_create_user_id input.address s ≡ (ok user_id, s')
    → find s'.next_id s'.bets ≡ none
free_id mode input db fresh round_id s e user_id s' e' =
    let same : s ≡ db = cc (resolve_round_id_reads mode input.round_id db) in
    let (id, returned, bets, grows) = user_step input.address s in
    let bets' : s'.bets ≡ db.bets = cc in
    let s'_next : (get_or_create_user_id input.address s).1.next_id ≡ s'.next_id = cc in
    let db_next : s.next_id ≡ db.next_id = cc in
    rw bets' (find_fresh db.next_id s'.next_id db.bets fresh (omega arith))

-- If every bet's identifier was given out before, a call that records a bet leaves it in the table
-- under the reported identifier, with the reported status and transaction and the amount that was
-- asked for.
pub record_bet-Recorded :
    (now : ℕ) (stub : Bool) (mode : GameMode) (chain : Result ChainError Placed) (input : BetInput)
    (db : Db)
    → IsFresh db
    → Recorded input (record_bet now stub mode chain input db)
unfolding record_bet
record_bet-Recorded now stub mode chain input db fresh =
    after_transaction (Recorded input) (record_bet_body now stub mode chain input) db
      (λ res db' e. rw e at body) (λ e db' h. tt)
  where
    body : Recorded input (record_bet_body now stub mode chain input db)
    body =
        after (Recorded input) _ (resolve_round_id mode input.round_id db)
          (λ round_id s e.
            after (Recorded input) _ (get_or_create_user_id input.address s)
              (λ user_id s' e'.
                place_bet-Recorded now stub mode chain input user_id round_id s'
                  (free_id mode input db fresh round_id s e user_id s' e'))
              (λ x s' e'. tt))
          (λ x s e. tt)
