-- ===== src/Bets/Laws.antt =====
-- One call of `reconcileBet`, `resolveBet` or `failBet` of src/services/bet.service.ts on a bet.
use xelma_backend.Base.{
  ℕ, ◌≡◌, ◌⊎◌, inl, inr, refl, Bool, true, Bool-cases, ◌==◌, ◌&&◌, if◌then◌else◌, Option, none,
  some, String, [], ◌∷◌, ◌++◌, arith, find, update, find-update,
}
use xelma_backend.Schema.{
  Bet, bet_row, BetStatus, bet_status_eq, EventStatus, OutboxEvent, Payload, Db,
}
use xelma_backend.Bets.Events.{event, create_event}
use xelma_backend.Bets.Status.{
  reconcile_bet, resolve_bet, fail_bet, confirm_row, resolve_row, fail_row, same_hash,
}

-- A call that has nothing to do writes nothing; any other writes the bet, and no other bet, together
-- with the one outbox event that announces it.
abbrev pub Announced :
    (Stays : Type 0) (Moved : Bet → Type 0) (k id : ℕ) (db db' : Db) → Payload → Type 0
Announced Stays Moved k id db db' payload =
    (Stays × (db' ≡ db))
    ⊎ ((¬ Stays)
        × (b' : Bet) × (find k db'.bets ≡ (if k == id then some b' else find k db.bets))
        × Moved b'
        × (e : OutboxEvent) × (db'.outbox ≡ db.outbox ++ e ∷ [])
        × (e.aggregate_id ≡ id)
        × (e.payload ≡ payload)
        × (e.status ≡ EventStatus.pending)
        × (db'.users ≡ db.users)
        × (db'.predictions ≡ db.predictions)
        × (db'.rounds ≡ db.rounds))

-- The bet is the same but for its status and what belongs to it.
abbrev pub SameBet : Bet → Bet → Type 0
SameBet b b' =
    (b'.id ≡ b.id)
    × (b'.user_id ≡ b.user_id)
    × (b'.round_id ≡ b.round_id)
    × (b'.mode ≡ b.mode)
    × (b'.side ≡ b.side)
    × (b'.amount ≡ b.amount)

abbrev pub IsResolved : Bet → Type 0
IsResolved b = b.status ≡ BetStatus.resolved

module _ (now k id : ℕ) (b : Bet) (db : Db) (found : find id db.bets ≡ some b) where
  abbrev pub ReconcileAnnounced : (tx_hash : ℕ) → Type 0
  ReconcileAnnounced tx_hash =
      Announced (IsResolved b ⊎ ((b.status ≡ BetStatus.confirmed) × (b.tx_hash ≡ some tx_hash)))
        (λ b'.
          (b'.status ≡ BetStatus.confirmed)
          × (b'.tx_hash ≡ some tx_hash)
          × (b'.confirmed_at ≡ some now)
          × (b'.failure_reason ≡ none)
          × SameBet b b')
        k id db (reconcile_bet now id tx_hash db).1
        (Payload.bet_confirmed b.id b.user_id b.round_id b.mode tx_hash)

  abbrev pub ResolveAnnounced : (won : Bool) (payout : ℕ) → Type 0
  ResolveAnnounced won payout =
      Announced (IsResolved b)
        (λ b'.
          IsResolved b' × (b'.resolved_at ≡ some now) × (b'.tx_hash ≡ b.tx_hash) × SameBet b b')
        k id db (resolve_bet now id won payout db).1
        (Payload.bet_resolved b.id b.user_id b.round_id b.mode won payout)

  abbrev pub FailAnnounced : (reason : String) → Type 0
  FailAnnounced reason =
      Announced (IsResolved b ⊎ (b.status ≡ BetStatus.failed))
        (λ b'.
          (b'.status ≡ BetStatus.failed)
          × (b'.failure_reason ≡ some reason)
          × (b'.failed_at ≡ some now)
          × (b'.tx_hash ≡ b.tx_hash)
          × SameBet b b')
        k id db (fail_bet now id reason db).1
        (Payload.bet_failed b.id b.user_id b.round_id b.mode reason)

  find_written :
      (f : Bet → Bet)
      → ((c : Bet) → (f c).id ≡ c.id)
      → find k (update id f db.bets) ≡ (if k == id then some (f b) else find k db.bets)
  find_written f keeps = elim (Bool-cases (k == id)) [
    | inl same ↦ ground (arith, find-update k id f db.bets keeps)
    | inr other ↦ ground (arith, find-update k id f db.bets keeps)
  ]

  same_hash-some : (h : Option ℕ) (tx : ℕ) → same_hash h tx ≡ true → h ≡ some tx
  same_hash-some none tx e = cc
  same_hash-some (some g) tx e = ground arith

  written :
      (Stays : Type 0) (Moved : Bet → Type 0) (f : Bet → Bet) (payload : Payload) (db' : Db)
      → (¬ Stays)
      → ((c : Bet) → (f c).id ≡ c.id)
      → Moved (f b)
      → db' ≡ create_event id payload (record db { bets = update id f db.bets })
      → Announced Stays Moved k id db db' payload
  unfolding create_event event
  written Stays Moved f payload db' goes_on keeps moved is = rw is (
      inr (
        goes_on,
        f b,
        find_written f keeps,
        moved,
        event db.next_id id payload,
        refl,
        refl,
        refl,
        refl,
        refl,
        refl,
        refl,
      ))

  reconcile_bet-Announced : (tx_hash : ℕ) → ReconcileAnnounced tx_hash
  unfolding reconcile_bet confirm_row
  reconcile_bet-Announced tx_hash =
      elim (Bool-cases
        (bet_status_eq b.status BetStatus.confirmed && same_hash b.tx_hash tx_hash)) [
          | inl again ↦
              inl
                (inr (ground arith, same_hash-some b.tx_hash tx_hash (ground arith)), ground arith)
          | inr new ↦ elim (Bool-cases (bet_status_eq b.status BetStatus.resolved)) [
            | inl final ↦ inl (inl (ground arith), ground arith)
            | inr live ↦
                written _ _ (confirm_row now tx_hash) _ _
                  (λ s. elim s [ inl is ↦ ground arith | inr both ↦ ground arith ]) (λ c. refl)
                  (refl, refl, refl, refl, (refl, refl, refl, refl, refl, refl)) (ground arith)
          ]
        ]

  resolve_bet-Announced : (won : Bool) (payout : ℕ) → ResolveAnnounced won payout
  unfolding resolve_bet resolve_row
  resolve_bet-Announced won payout = elim (Bool-cases (bet_status_eq b.status BetStatus.resolved)) [
    | inl final ↦ inl (ground arith, ground arith)
    | inr live ↦
        written _ _ (resolve_row now) _ _ (λ is. ground arith) (λ c. refl)
          (refl, refl, refl, (refl, refl, refl, refl, refl, refl)) (ground arith)
  ]

  fail_bet-Announced : (reason : String) → FailAnnounced reason
  unfolding fail_bet fail_row
  fail_bet-Announced reason = elim (Bool-cases (bet_status_eq b.status BetStatus.failed)) [
    | inl again ↦ inl (inr (ground arith), ground arith)
    | inr new ↦ elim (Bool-cases (bet_status_eq b.status BetStatus.resolved)) [
      | inl final ↦ inl (inl (ground arith), ground arith)
      | inr live ↦
          written _ _ (fail_row now reason) _ _
            (λ s. elim s [ inl is ↦ ground arith | inr is ↦ ground arith ]) (λ c. refl)
            (refl, refl, refl, refl, (refl, refl, refl, refl, refl, refl)) (ground arith)
    ]
  ]

  -- Each of the three calls on a bet that exists writes nothing at all where there is nothing to do:
  -- the bet is RESOLVED, or CONFIRMED with the same hash already, or FAILED already. Otherwise the
  -- bet, and no other, is CONFIRMED with that hash, RESOLVED or FAILED with that reason from then on,
  -- what was wagered stays as it was, and exactly one pending outbox event of this bet announces it.
  pub bet_status-Announced :
      (tx_hash payout : ℕ) (won : Bool) (reason : String)
      → ReconcileAnnounced tx_hash × ResolveAnnounced won payout × FailAnnounced reason
  bet_status-Announced tx_hash payout won reason =
      (reconcile_bet-Announced tx_hash, resolve_bet-Announced won payout, fail_bet-Announced reason)
