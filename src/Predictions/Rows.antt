-- ===== src/Predictions/Rows.antt =====
-- Tables of predictions that are kept in order: the identifiers are unique and were given out, and
-- a FAILED prediction has been paid back.
use xelma_backend.Base.{
  ℕ, ◌≡◌, ◌<◌, ◌≤◌, inl, inr, refl, Bool, true, Bool-cases, ◌||◌, not, is_some, none, some, List,
  [], ◌∷◌, ◌++◌, find, find_first, update, find-update, find-append, arith, if◌then◌else◌, ◌==◌,
}
use xelma_backend.Schema.{Prediction, prediction_row, ChainStatus, chain_eq}

-- What a prediction holds of its owner's money.
abbrev pub stake : Prediction → ℕ
stake p = if is_some p.compensated_at then 0 else p.amount

abbrev pub is_paid_back_if_failed : Prediction → Bool
is_paid_back_if_failed p =
    not (chain_eq p.chain_status ChainStatus.failed) || is_some p.compensated_at

unfoldable pub IsSound : (next_id : ℕ) → List Prediction → Type 0
IsSound n [] = Unit
IsSound n (p ∷ ps) =
    (p.id < n) × (is_paid_back_if_failed p ≡ true) × (find p.id ps ≡ none) × IsSound n ps

pub IsSound-mono : (n m : ℕ) (ps : List Prediction) → n ≤ m → IsSound n ps → IsSound m ps
unfolding IsSound
IsSound-mono n m [] le h = tt
IsSound-mono n m (p ∷ ps) le (below, paid, unique, rest) =
    (omega arith, paid, unique, IsSound-mono n m ps le rest)

-- A write that keeps the key and leaves no FAILED row unpaid.
abbrev pub IsFair : (Prediction → Prediction) → Type 0
IsFair f =
    (p : Prediction)
    → ((f p).id ≡ p.id) × (is_paid_back_if_failed p ≡ true → is_paid_back_if_failed (f p) ≡ true)

pub IsSound-update :
    (n k : ℕ) (f : Prediction → Prediction) (ps : List Prediction)
    → IsFair f
    → IsSound n ps
    → IsSound n (update k f ps)
unfolding IsSound
IsSound-update n k f [] fair h = tt
IsSound-update n k f (p ∷ ps) fair (below, paid, unique, rest) = elim (Bool-cases (p.id == k)) [
  | inl e ↦ rw e (rw (fair p).0 below, (fair p).1 paid, rw (fair p).0 unique, rest)
  | inr e ↦ rw e (
    below,
    paid,
    ground (arith, find-update p.id k f ps (λ x. (fair x).0)),
    IsSound-update n k f ps fair rest,
  )
]

pub IsSound-append :
    (n m : ℕ) (ps : List Prediction) (p : Prediction)
    → n ≤ p.id
    → p.id < m
    → is_paid_back_if_failed p ≡ true
    → IsSound n ps
    → IsSound m (ps ++ p ∷ [])
unfolding IsSound
IsSound-append n m [] p le lt paid h = (lt, paid, refl, tt)
IsSound-append n m (q ∷ ps) p le lt paid (below, paid', unique, rest) = (
  omega arith,
  paid',
  ground (arith, find-append q.id ps p unique),
  IsSound-append n m ps p le lt paid rest,
)

-- A row found by other columns is the row of its key.
pub find-find_first :
    (n : ℕ) (q : Prediction → Bool) (p : Prediction) (ps : List Prediction)
    → IsSound n ps
    → find_first q ps ≡ some p
    → find p.id ps ≡ some p
unfolding IsSound
find-find_first n q p [] h e = cc
find-find_first n q p (x ∷ xs) (below, paid, unique, rest) e =
    ground (arith, find-find_first n q p xs rest)

pub find-IsSound :
    (n k : ℕ) (p : Prediction) (ps : List Prediction)
    → IsSound n ps
    → find k ps ≡ some p
    → is_paid_back_if_failed p ≡ true
unfolding IsSound
find-IsSound n k p [] h e = cc
find-IsSound n k p (x ∷ xs) (below, paid, unique, rest) e =
    ground (arith, find-IsSound n k p xs rest)
