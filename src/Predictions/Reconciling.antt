-- ===== src/Predictions/Reconciling.antt =====
-- src/services/prediction-reconciliation.service.ts, and `confirmPredictionFromReconciliation` of
-- src/services/prediction.service.ts. The replies of the chain client are arguments; the texts of
-- log lines and the formatted part of the review reason are left out.
use xelma_backend.Base.{
  ℕ, ◌+◌, ◌-◌, Bool, true, false, ◌&&◌, ◌||◌, ltb, leb, Option, none, some, List, [], ◌∷◌, Result,
  ok, err, Action, pure, throw, ◌>>◌, find, filter, take, if◌then◌else◌,
}
use xelma_backend.Schema.{
  User, user_row, Round, round_row, Prediction, prediction_row, ChainStatus, chain_eq, Db, Error,
  ChainError,
}
use xelma_backend.Predictions.Reserving.{or_keep}
use xelma_backend.Predictions.Finalizing.{
  write_prediction_row, finalize_chain_success, compensate_prediction, flag_for_manual_review,
}

pub record Config : Type 0 where
  pub min_age : ℕ
  pub batch_size : ℕ
  pub max_attempts : ℕ

-- What `getTransactionStatus` reports.
pub record TxStatus : Type 0 where
  pub confirmed : Bool
  pub successful : Bool

-- The chain client, and the hash that stands for none.
pub record ChainView : Type 0 where
  pub status_of : (tx_hash : ℕ) → Result ChainError TxStatus
  pub position_of : (soroban_round address : ℕ) → Result ChainError (Option ℕ)
  pub no_hash : ℕ

pub record Counts : Type 0 where
  pub checked : ℕ
  pub confirmed : ℕ
  pub failed : ℕ
  pub unresolved : ℕ
  pub errors : ℕ

abbrev pub no_counts : Counts
no_counts = record { checked = 0; confirmed = 0; failed = 0; unresolved = 0; errors = 0 }

-- `txHash || pred.txHash || 'reconciled-no-txhash'`
abbrev hash_or : ℕ → Option ℕ → Option ℕ → Option ℕ
hash_or no_hash asked own = or_keep asked (or_keep own (some no_hash))

abbrev confirm_unless : Bool → (now : ℕ) → Prediction → Round → Option ℕ → Db → Db
confirm_unless true now p round hash db = db
confirm_unless false now p round hash db = finalize_chain_success now p.id p round hash db

-- `confirmPredictionFromReconciliation`
unfoldable pub confirm_from_reconciliation :
    (now no_hash id : ℕ) (tx_hash : Option ℕ) → Action Error Db (Unit {0})
confirm_from_reconciliation now no_hash id tx_hash db = elim (find id db.predictions) [
  | none ↦ (ok tt, db)
  | some p ↦ elim (find p.round_id db.rounds) [
    | none ↦ (err (Error.plain "Inconsistent query result"), db)
    | some round ↦ (
      ok tt,
      confirm_unless (chain_eq p.chain_status ChainStatus.confirmed) now p round
          (hash_or no_hash tx_hash p.tx_hash) db,
    )
  ]
]

-- The oldest first, the earlier row on a tie.
abbrev insert_by_age : Prediction → List Prediction → List Prediction
insert_by_age p [] = p ∷ []
insert_by_age p (q ∷ qs) =
    if leb p.created_at q.created_at then p ∷ q ∷ qs else q ∷ insert_by_age p qs

abbrev pub sort_by_age : List Prediction → List Prediction
sort_by_age [] = []
sort_by_age (p ∷ ps) = insert_by_age p (sort_by_age ps)

abbrev pub is_stranded : (cutoff : ℕ) → Prediction → Bool
is_stranded cutoff p =
    (chain_eq p.chain_status ChainStatus.pending || chain_eq p.chain_status ChainStatus.submitted)
    && ltb p.created_at cutoff

unfoldable pub stranded : Config → (now : ℕ) → Db → List Prediction
stranded config now db =
    take config.batch_size
      (sort_by_age (filter (is_stranded (now - config.min_age)) db.predictions))

pub data Verdict : Type 0 where
  found refuted open_still : Verdict

abbrev has_amount : Result ChainError (Option ℕ) → Bool
has_amount (ok (some amount)) = ltb 0 amount
has_amount (ok none) = false
has_amount (err e) = false

abbrev position_at : ChainView → Option ℕ → Option User → Bool
position_at view (some soroban_round) (some u) =
    has_amount (view.position_of soroban_round u.wallet_address)
position_at view _ _ = false

abbrev soroban_of : Option Round → Option ℕ
soroban_of none = none
soroban_of (some r) = r.soroban_round_id

-- Whether the chain knows of the user's position in the round; an error counts as no.
unfoldable pub is_on_chain : ChainView → Prediction → Db → Bool
is_on_chain view p db =
    position_at view (soroban_of (find p.round_id db.rounds)) (find p.user_id db.users)

abbrev pub count_attempt : Prediction → Prediction
count_attempt q = record q { chain_attempt_count = q.chain_attempt_count + 1 }

-- One more attempt, or the end of them.
abbrev pub try_again_or :
    Config → Prediction → (last : Action Error Db Verdict) → Action Error Db Verdict
try_again_or config p last =
    if leb config.max_attempts p.chain_attempt_count
    then last
    else write_prediction_row p.id count_attempt >> pure Verdict.open_still

abbrev pub by_status :
    Config → (now no_hash : ℕ) → Prediction → ℕ → Bool → Bool → Action Error Db Verdict
by_status config now no_hash p hash true true =
    confirm_from_reconciliation now no_hash p.id (some hash) >> pure Verdict.found
by_status config now no_hash p hash true false =
    compensate_prediction now p.id >> pure Verdict.refuted
by_status config now no_hash p hash false s =
    try_again_or config p (
      flag_for_manual_review p.id "Exceeded max reconciliation attempts" >> pure Verdict.open_still)

abbrev pub by_position : Config → (now no_hash : ℕ) → Prediction → Bool → Action Error Db Verdict
by_position config now no_hash p true =
    confirm_from_reconciliation now no_hash p.id none >> pure Verdict.found
by_position config now no_hash p false =
    try_again_or config p (compensate_prediction now p.id >> pure Verdict.refuted)

abbrev pub by_reply :
    Config
    → (now no_hash : ℕ) → Prediction
    → ℕ
    → Result ChainError TxStatus
    → Action Error Db Verdict
by_reply config now no_hash p hash (ok s) =
    by_status config now no_hash p hash s.confirmed s.successful
by_reply config now no_hash p hash (err e) = throw (Error.chain e)

abbrev pub by_hash :
    Config → ChainView → (now : ℕ) → Prediction → Bool → Option ℕ → Action Error Db Verdict
by_hash config view now p on_chain (some hash) =
    by_reply config now view.no_hash p hash (view.status_of hash)
by_hash config view now p on_chain none = by_position config now view.no_hash p on_chain

-- The body of the loop on one row, as it was read.
unfoldable pub reconcile_one : Config → ChainView → (now : ℕ) → Prediction → Action Error Db Verdict
reconcile_one config view now p db = by_hash config view now p (is_on_chain view p db) p.tx_hash db

-- `checked++`, and the counter of the outcome, `errors` for a throw.
abbrev pub count : Result Error Verdict → Counts → Counts
count (ok Verdict.found) c = record c { checked = c.checked + 1; confirmed = c.confirmed + 1 }
count (ok Verdict.refuted) c = record c { checked = c.checked + 1; failed = c.failed + 1 }
count (ok Verdict.open_still) c = record c {
  checked = c.checked + 1;
  unresolved = c.unresolved + 1;
}
count (err e) c = record c { checked = c.checked + 1; errors = c.errors + 1 }

unfoldable pub reconcile_all :
    Config → ChainView → (now : ℕ) → List Prediction → Counts → Db → Counts × Db
reconcile_all config view now [] c db = (c, db)
reconcile_all config view now (p ∷ ps) c db =
    let (r, db') = reconcile_one config view now p db in
    reconcile_all config view now ps (count r c) db'

unfoldable pub reconcile_predictions : Config → ChainView → (now : ℕ) → Db → Counts × Db
reconcile_predictions config view now db =
    reconcile_all config view now (stranded config now db) no_counts db
