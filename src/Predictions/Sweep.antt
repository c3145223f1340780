-- ===== src/Predictions/Sweep.antt =====
-- What a reconciliation sweep does: src/services/prediction-reconciliation.service.ts.
use xelma_backend.Base.{
  ℕ, ◌+◌, ◌≡◌, ◌≤◌, refl, ◌∙◌, inl, inr, Bool, true, false, Bool-cases, Option, none, some,
  Option-cases, List, [], ◌∷◌, Result, ok, err, Action, ◌>>◌, pure, find, length, length-take_le,
  arith, if◌then◌else◌, leb, String, filter, ◌-◌,
}
use xelma_backend.Schema.{
  Prediction, prediction_row, Round, round_row, ChainStatus, chain_eq, Db, Error, ChainError,
}
use xelma_backend.Predictions.Finalizing.{
  write_prediction_row, compensate_prediction, flag_for_manual_review,
}
use xelma_backend.Predictions.Reconciling.{
  Config, ChainView, TxStatus, Counts, no_counts, confirm_from_reconciliation, stranded,
  is_on_chain, Verdict, try_again_or, by_status, by_reply, by_hash, reconcile_one, count,
  reconcile_all, reconcile_predictions, count_attempt, sort_by_age, is_stranded,
}
use xelma_backend.Predictions.Funds.{
  funds, IsInOrder, Conserves, row_written-Conserves, finalize_chain_success-Conserves,
  compensate_prediction-Conserves,
}
use xelma_backend.Predictions.Conservation.{bind-Conserves}

-- Every row that was looked at is in one counter.
abbrev pub IsAccounted : Counts → Type 0
IsAccounted c = c.checked ≡ c.confirmed + c.failed + c.unresolved + c.errors

count-IsAccounted :
    (r : Result Error Verdict) (c : Counts) → IsAccounted c → IsAccounted (count r c)
count-IsAccounted (ok Verdict.found) c h = omega arith
count-IsAccounted (ok Verdict.refuted) c h = omega arith
count-IsAccounted (ok Verdict.open_still) c h = omega arith
count-IsAccounted (err e) c h = omega arith

count-checked : (r : Result Error Verdict) (c : Counts) → (count r c).checked ≡ c.checked + 1
count-checked (ok Verdict.found) c = refl
count-checked (ok Verdict.refuted) c = refl
count-checked (ok Verdict.open_still) c = refl
count-checked (err e) c = refl

reconcile_all-IsAccounted :
    (config : Config) (view : ChainView) (now : ℕ) (ps : List Prediction) (c : Counts) (db : Db)
    → IsAccounted c
    → IsAccounted (reconcile_all config view now ps c db).0
      × ((reconcile_all config view now ps c db).0.checked ≡ c.checked + length ps)
unfolding reconcile_all
reconcile_all-IsAccounted config view now [] c db h = (h, omega arith)
reconcile_all-IsAccounted config view now (p ∷ ps) c db h =
    let (r, db') = reconcile_one config view now p db in
    let (accounted, all) =
      reconcile_all-IsAccounted config view now ps (count r c) db' (count-IsAccounted r c h) in
    (accounted, omega (arith, all, count-checked r c))

-- A sweep looks at no more predictions than its batch, and every one of them is counted once, as
-- confirmed, failed, unresolved or an error.
pub reconcile_predictions-IsAccounted :
    (config : Config) (view : ChainView) (now : ℕ) (db : Db)
    → IsAccounted (reconcile_predictions config view now db).0
      × ((reconcile_predictions config view now db).0.checked ≤ config.batch_size)
unfolding reconcile_predictions stranded
reconcile_predictions-IsAccounted config view now db =
    let (accounted, all) =
      reconcile_all-IsAccounted config view now (stranded config now db) no_counts db refl in
    (
      accounted,
      omega (
        arith,
        all,
        length-take_le config.batch_size
            (sort_by_age (filter (is_stranded (now - config.min_age)) db.predictions)),
      ),
    )

confirm-Conserves :
    (now no_hash id : ℕ) (tx_hash : Option ℕ)
    → Conserves (λ db. (confirm_from_reconciliation now no_hash id tx_hash db).1)
unfolding confirm_from_reconciliation
confirm-Conserves now no_hash id tx_hash db h = elim (Option-cases (find id db.predictions)) [
  | inl gone ↦ rw (gone, confirm_from_reconciliation) (h, refl)
  | inr (p, e) ↦
      rw (e, confirm_from_reconciliation)
        (elim (Option-cases (find p.round_id db.rounds)) [
          | inl lost ↦ rw lost (h, refl)
          | inr (round, er) ↦
              rw er (elim (Bool-cases (chain_eq p.chain_status ChainStatus.confirmed)) [
                | inl done ↦ rw done (h, refl)
                | inr open_yet ↦
                    rw open_yet (finalize_chain_success-Conserves now p.id p round _ db h)
              ])
        ])
]

said-Conserves :
    (m : Action Error Db (Unit {0})) (v : Verdict)
    → Conserves (λ db. (m db).1)
    → Conserves (λ db. ((m >> pure v) db).1)
said-Conserves m v c = bind-Conserves m (λ a. pure v) c (λ a db h. (h, refl))

try_again_or-Conserves :
    (config : Config) (p : Prediction) (last : Action Error Db Verdict)
    → Conserves (λ db. (last db).1)
    → Conserves (λ db. (try_again_or config p last db).1)
try_again_or-Conserves config p last c = go (leb config.max_attempts p.chain_attempt_count)
  where
    go :
        (b : Bool)
        → Conserves (λ db.
          ((if b then last else write_prediction_row p.id count_attempt >> pure Verdict.open_still)
            db).1)
    go true = c
    go false =
        said-Conserves (write_prediction_row p.id count_attempt) Verdict.open_still
          (row_written-Conserves p.id count_attempt (λ x. (refl, λ y. y)) (λ x. refl))

flag-Conserves :
    (id : ℕ) (reason : String) → Conserves (λ db. (flag_for_manual_review id reason db).1)
unfolding flag_for_manual_review
flag-Conserves id reason = row_written-Conserves id _ (λ x. (refl, λ y. refl)) (λ x. refl)

by_hash-Conserves :
    (config : Config) (view : ChainView) (now : ℕ) (p : Prediction) (on_chain : Bool)
    (hash : Option ℕ)
    → Conserves (λ db. (by_hash config view now p on_chain hash db).1)
by_hash-Conserves config view now p on_chain (some hash) = replied (view.status_of hash)
  where
    looked :
        (confirmed successful : Bool)
        → Conserves (λ db. (by_status config now view.no_hash p hash confirmed successful db).1)
    looked true true =
        said-Conserves (confirm_from_reconciliation now view.no_hash p.id (some hash)) Verdict.found
          (confirm-Conserves now view.no_hash p.id (some hash))
    looked true false =
        said-Conserves (compensate_prediction now p.id) Verdict.refuted
          (compensate_prediction-Conserves now p.id)
    looked false s = try_again_or-Conserves config p _ (
        said-Conserves (flag_for_manual_review p.id "Exceeded max reconciliation attempts")
          Verdict.open_still (flag-Conserves p.id _))

    replied :
        (r : Result ChainError TxStatus)
        → Conserves (λ db. (by_reply config now view.no_hash p hash r db).1)
    replied (ok s) = looked s.confirmed s.successful
    replied (err e) = λ db h. (h, refl)
by_hash-Conserves config view now p true none =
    said-Conserves (confirm_from_reconciliation now view.no_hash p.id none) Verdict.found
      (confirm-Conserves now view.no_hash p.id none)
by_hash-Conserves config view now p false none = try_again_or-Conserves config p _ (
    said-Conserves (compensate_prediction now p.id) Verdict.refuted
      (compensate_prediction-Conserves now p.id))

reconcile_all-Conserves :
    (config : Config) (view : ChainView) (now : ℕ) (ps : List Prediction) (c : Counts)
    → Conserves (λ db. (reconcile_all config view now ps c db).1)
unfolding reconcile_all reconcile_one
reconcile_all-Conserves config view now [] c db h = (h, refl)
reconcile_all-Conserves config view now (p ∷ ps) c db h =
    let (order, same) =
      by_hash-Conserves config view now p (is_on_chain view p db) p.tx_hash db h in
    let (order', same') = reconcile_all-Conserves config view now ps _ _ order in
    (order', same' ∙ same)

-- A reconciliation sweep over predictions in order conserves the sum of balances and held stakes and
-- keeps the order, whatever the chain client reports.
pub reconcile_predictions-Conserves :
    (config : Config) (view : ChainView) (now : ℕ) (db : Db)
    → IsInOrder db
    → IsInOrder (reconcile_predictions config view now db).1
      × (funds (reconcile_predictions config view now db).1 ≡ funds db)
unfolding reconcile_predictions
reconcile_predictions-Conserves config view now db =
    reconcile_all-Conserves config view now (stranded config now db) no_counts db

-- A row as a chain call that timed out leaves it, SUBMITTED and without a hash, whose position the
-- chain knows.
abbrev pub IsStuck : ChainView → Db → Prediction → Type 0
IsStuck view db p =
    (p.chain_status ≡ ChainStatus.submitted)
    × (p.tx_hash ≡ none)
    × (find p.id db.predictions ≡ some p)
    × (round : Round) × (find p.round_id db.rounds ≡ some round)
    × (is_on_chain view p db ≡ true)
