-- ===== src/Bets/Runs.antt =====
-- Any sequence of calls of `reconcileBet`, `resolveBet` and `failBet` of src/services/bet.service.ts, on
-- any bets.
use xelma_backend.Base.{
  ℕ, ◌+◌, ◌≡◌, ◌⊎◌, inl, inr, refl, ◌∙◌, Bool, false, Bool-cases, ◌==◌, if◌then◌else◌, Option, none,
  some, Option-cases, String, List, [], ◌∷◌, arith, find, update, find-update, key-find, sum_by,
  sum_by-append,
}
use xelma_backend.Schema.{Bet, bet_row, BetStatus, bet_status_eq, OutboxEvent, Payload, Db}
use xelma_backend.Bets.Events.{event, create_event}
use xelma_backend.Bets.Status.{
  reconcile_bet, resolve_bet, fail_bet, confirm_row, resolve_row, fail_row, same_hash,
}

pub data BetCall : Type 0 where
  reconcile : (now bet_id tx_hash : ℕ) → BetCall
  resolve : (now bet_id : ℕ) (won : Bool) (payout : ℕ) → BetCall
  fail : (now bet_id : ℕ) (reason : String) → BetCall

abbrev pub make_bet_call : BetCall → Db → Db
make_bet_call (BetCall.reconcile now id tx_hash) db = (reconcile_bet now id tx_hash db).1
make_bet_call (BetCall.resolve now id won payout) db = (resolve_bet now id won payout db).1
make_bet_call (BetCall.fail now id reason) db = (fail_bet now id reason db).1

unfoldable pub make_bet_calls : List BetCall → Db → Db
make_bet_calls [] db = db
make_bet_calls (c ∷ cs) db = make_bet_calls cs (make_bet_call c db)

abbrev is_resolution : (bet : ℕ) → Payload → ℕ
is_resolution k (Payload.bet_resolved bet user round mode won payout) = if bet == k then 1 else 0
is_resolution k _ = 0

-- The BET_RESOLVED events of one bet in the outbox.
abbrev pub resolutions : (bet : ℕ) → Db → ℕ
resolutions k db = sum_by (λ (e : OutboxEvent). is_resolution k e.payload) db.outbox

abbrev one_if_resolved : Option Bet → ℕ
one_if_resolved none = 0
one_if_resolved (some b) = if bet_status_eq b.status BetStatus.resolved then 1 else 0

-- 1 if the bet is there and RESOLVED, 0 otherwise.
abbrev pub resolved_count : (bet : ℕ) → Db → ℕ
resolved_count k db = one_if_resolved (find k db.bets)

-- A bet that is RESOLVED stays as it is, and a bet has as many new BET_RESOLVED events as it has
-- become RESOLVED.
abbrev pub AnnouncesOnce : (bet : ℕ) (before after : Db) → Type 0
AnnouncesOnce k before after =
    ((find k after.bets ≡ find k before.bets) ⊎ (resolved_count k before ≡ 0))
    × (resolutions k after + resolved_count k before
        ≡ resolutions k before + resolved_count k after)

stays : (k : ℕ) (db db' : Db) → db' ≡ db → AnnouncesOnce k db db'
stays k db db' e = rw e (inl refl, refl)

writes :
    (k id : ℕ) (b : Bet) (f : Bet → Bet) (payload : Payload) (db db' : Db)
    → find id db.bets ≡ some b
    → bet_status_eq b.status BetStatus.resolved ≡ false
    → ((c : Bet) → (f c).id ≡ c.id)
    → is_resolution k payload ≡ (if k == id then one_if_resolved (some (f b)) else 0)
    → db' ≡ create_event id payload (record db { bets = update id f db.bets })
    → AnnouncesOnce k db db'
unfolding create_event event
writes k id b f payload db db' found live keeps counts is =
    let moved = find-update k id f db.bets keeps in
    let added =
      sum_by-append (λ (e : OutboxEvent). is_resolution k e.payload) db.outbox
        (event db.next_id id payload ∷ []) in
    elim (Bool-cases (k == id)) [
      | inl same ↦ rw is (inr (ground arith), ground (arith, moved, added))
      | inr other ↦ rw is (inl (ground (arith, moved)), ground (arith, moved, added))
    ]

module _ (k id now : ℕ) (db : Db) where
  reconcile-AnnouncesOnce : (tx_hash : ℕ) → AnnouncesOnce k db (reconcile_bet now id tx_hash db).1
  unfolding reconcile_bet confirm_row
  reconcile-AnnouncesOnce tx_hash = elim (Option-cases (find id db.bets)) [
    | inl gone ↦ stays k db (reconcile_bet now id tx_hash db).1 (ground arith)
    | inr (b, found) ↦ elim (Bool-cases (bet_status_eq b.status BetStatus.resolved)) [
      | inl final ↦ stays k db (reconcile_bet now id tx_hash db).1 (ground arith)
      | inr live ↦ elim (Bool-cases (bet_status_eq b.status BetStatus.confirmed)) [
        | inl already ↦ elim (Bool-cases (same_hash b.tx_hash tx_hash)) [
          | inl same ↦ stays k db (reconcile_bet now id tx_hash db).1 (ground arith)
          | inr other ↦
              writes k id b (confirm_row now tx_hash)
                (Payload.bet_confirmed b.id b.user_id b.round_id b.mode tx_hash) db
                (reconcile_bet now id tx_hash db).1 found live (λ c. refl) (ground arith)
                (ground arith)
        ]
        | inr new ↦
            writes k id b (confirm_row now tx_hash)
              (Payload.bet_confirmed b.id b.user_id b.round_id b.mode tx_hash) db
              (reconcile_bet now id tx_hash db).1 found live (λ c. refl) (ground arith)
              (ground arith)
      ]
    ]
  ]

  resolve-AnnouncesOnce :
      (won : Bool) (payout : ℕ) → AnnouncesOnce k db (resolve_bet now id won payout db).1
  unfolding resolve_bet resolve_row
  resolve-AnnouncesOnce won payout = elim (Option-cases (find id db.bets)) [
    | inl gone ↦ stays k db (resolve_bet now id won payout db).1 (ground arith)
    | inr (b, found) ↦ elim (Bool-cases (bet_status_eq b.status BetStatus.resolved)) [
      | inl final ↦ stays k db (resolve_bet now id won payout db).1 (ground arith)
      | inr live ↦
          writes k id b (resolve_row now)
            (Payload.bet_resolved b.id b.user_id b.round_id b.mode won payout) db
            (resolve_bet now id won payout db).1 found live (λ c. refl)
            (ground (arith, key-find id b db.bets found)) (ground arith)
    ]
  ]

  fail-AnnouncesOnce : (reason : String) → AnnouncesOnce k db (fail_bet now id reason db).1
  unfolding fail_bet fail_row
  fail-AnnouncesOnce reason = elim (Option-cases (find id db.bets)) [
    | inl gone ↦ stays k db (fail_bet now id reason db).1 (ground arith)
    | inr (b, found) ↦ elim (Bool-cases (bet_status_eq b.status BetStatus.resolved)) [
      | inl final ↦ stays k db (fail_bet now id reason db).1 (ground arith)
      | inr live ↦ elim (Bool-cases (bet_status_eq b.status BetStatus.failed)) [
        | inl already ↦ stays k db (fail_bet now id reason db).1 (ground arith)
        | inr new ↦
            writes k id b (fail_row now reason)
              (Payload.bet_failed b.id b.user_id b.round_id b.mode reason) db
              (fail_bet now id reason db).1 found live (λ c. refl) (ground arith) (ground arith)
      ]
    ]
  ]

make_bet_call-AnnouncesOnce :
    (k : ℕ) (c : BetCall) (db : Db) → AnnouncesOnce k db (make_bet_call c db)
make_bet_call-AnnouncesOnce k (BetCall.reconcile now id tx_hash) db =
    reconcile-AnnouncesOnce k id now db tx_hash
make_bet_call-AnnouncesOnce k (BetCall.resolve now id won payout) db =
    resolve-AnnouncesOnce k id now db won payout
make_bet_call-AnnouncesOnce k (BetCall.fail now id reason) db =
    fail-AnnouncesOnce k id now db reason

andthen : (k : ℕ) (a b c : Db) → AnnouncesOnce k a b → AnnouncesOnce k b c → AnnouncesOnce k a c
andthen k a b c (inl e, m) (inl e', n) = (inl (e' ∙ e), omega (arith, m, n))
andthen k a b c (inl e, m) (inr z, n) = (inr (ground arith), omega (arith, m, n))
andthen k a b c (inr z, m) (d, n) = (inr z, omega (arith, m, n))

-- Over any sequence of the three calls, on any bets and with any arguments: a bet that is RESOLVED
-- stays exactly as it is, and the bet gains one BET_RESOLVED event if it has become RESOLVED in that
-- sequence and none if it has not, however often it is resolved.
pub make_bet_calls-AnnouncesOnce :
    (calls : List BetCall) (k : ℕ) (db : Db) → AnnouncesOnce k db (make_bet_calls calls db)
unfolding make_bet_calls
make_bet_calls-AnnouncesOnce [] k db = (inl refl, refl)
make_bet_calls-AnnouncesOnce (c ∷ cs) k db =
    andthen k db (make_bet_call c db) (make_bet_calls cs (make_bet_call c db))
      (make_bet_call-AnnouncesOnce k c db) (make_bet_calls-AnnouncesOnce cs k (make_bet_call c db))
