-- ===== src/Bets/Status.antt =====
-- `reconcileBet`, `resolveBet` and `failBet` of src/services/bet.service.ts. Audit events and logs,
-- which are written outside the transactions, are left out.
use xelma_backend.Base.{
  ℕ, Bool, false, ◌&&◌, ◌==◌, Option, none, some, String, Action, ok, find, update, if◌then◌else◌,
}
use xelma_backend.Schema.{Bet, bet_row, BetStatus, bet_status_eq, Payload, Db, Error}
use xelma_backend.Bets.Events.{create_event}

-- `existingBet.txHash === txHash`
abbrev pub same_hash : Option ℕ → ℕ → Bool
same_hash none h = false
same_hash (some g) h = g == h

abbrev pub or_now : Option ℕ → ℕ → Option ℕ
or_now none now = some now
or_now (some t) now = some t

unfoldable pub confirm_row : (now tx_hash : ℕ) → Bet → Bet
confirm_row now tx_hash b = record b {
  status = BetStatus.confirmed;
  tx_hash = some tx_hash;
  submitted_at = or_now b.submitted_at now;
  confirmed_at = some now;
  failure_reason = none;
  failed_at = none;
}

unfoldable pub reconcile_bet : (now bet_id tx_hash : ℕ) → Action Error Db (Option Bet)
unfolding confirm_row
reconcile_bet now bet_id tx_hash db = elim (find bet_id db.bets) [
  | none ↦ (ok none, db)
  | some b ↦
      let updated = confirm_row now tx_hash b in
      if bet_status_eq b.status BetStatus.confirmed && same_hash b.tx_hash tx_hash
      then (ok (some b), db)
      else if bet_status_eq b.status BetStatus.resolved
      then (ok (some b), db)
      else (
        ok (some updated),
        create_event bet_id (Payload.bet_confirmed b.id b.user_id b.round_id b.mode tx_hash)
            (record db { bets = update bet_id (confirm_row now tx_hash) db.bets }),
      )
]

unfoldable pub resolve_row : (now : ℕ) → Bet → Bet
resolve_row now b = record b { status = BetStatus.resolved; resolved_at = some now }

unfoldable pub resolve_bet :
    (now bet_id : ℕ) (won : Bool) (payout : ℕ) → Action Error Db (Option Bet)
unfolding resolve_row
resolve_bet now bet_id won payout db = elim (find bet_id db.bets) [
  | none ↦ (ok none, db)
  | some b ↦ if bet_status_eq b.status BetStatus.resolved then (ok (some b), db) else (
    ok (some (resolve_row now b)),
    create_event bet_id (Payload.bet_resolved b.id b.user_id b.round_id b.mode won payout)
        (record db { bets = update bet_id (resolve_row now) db.bets }),
  )
]

unfoldable pub fail_row : (now : ℕ) → String → Bet → Bet
fail_row now reason b = record b {
  status = BetStatus.failed;
  failure_reason = some reason;
  failed_at = some now;
}

unfoldable pub fail_bet : (now bet_id : ℕ) (reason : String) → Action Error Db (Option Bet)
unfolding fail_row
fail_bet now bet_id reason db = elim (find bet_id db.bets) [
  | none ↦ (ok none, db)
  | some b ↦
      if bet_status_eq b.status BetStatus.failed
      then (ok (some b), db)
      else if bet_status_eq b.status BetStatus.resolved
      then (ok (some b), db)
      else (
        ok (some (fail_row now reason b)),
        create_event bet_id (Payload.bet_failed b.id b.user_id b.round_id b.mode reason)
            (record db { bets = update bet_id (fail_row now reason) db.bets }),
      )
]
