-- ===== src/Lifecycle/Safety.antt =====
-- What a call of the engine can do, whatever other connections commit in between, and what any
-- sequence of calls can do.
use xelma_backend.Base.{
  ◌&&◌, find-update, ℕ, ◌+◌, ◌≤◌, ◌≡◌, ◌==◌, Bool, true, false, Bool-cases, ◌⊎◌, Option, none, some,
  Option-cases, inl, inr, List, [], ◌∷◌, refl, ok, err, Result, arith, find, update,
  find-update_self, if◌then◌else◌,
}
use xelma_backend.Schema.{RoundStatus, Round, round_row, Db, Error, status_eq}
use xelma_backend.Lifecycle.Engine.{
  is_legal_round_transition, RoundData, write_round, compare_and_set, transition_round,
}
use xelma_backend.Lifecycle.Graph.{◌⟶◌, ◌⟶*◌, here, next, legal-⟶}

write_round-id :
    (to : RoundStatus) (fields : RoundData) (r : Round) → (write_round to fields r).id ≡ r.id
write_round-id to fields r = refl

module _ (meanwhile : Db → Db) (id : ℕ) (to : RoundStatus) (fields : RoundData) (db : Db) where
  -- If a transition returned, the row that its update met was in a legal source status for the
  -- target, the call returns that row with the status and columns written, and wrote that row
  -- alone.
  pub transition_round_moves :
      (r : Round) (db' : Db)
      → transition_round meanwhile id to fields db ≡ (ok r, db')
      → (before : Round) × (find id (meanwhile db).rounds ≡ some before)
        × (before.status ⟶ to)
        × (r ≡ write_round to fields before)
        × (db' ≡ record (meanwhile db) {
          rounds = update id (write_round to fields) (meanwhile db).rounds;
        })
  unfolding transition_round
  transition_round_moves r db' h = elim (Option-cases (find id (meanwhile db).rounds)) [
    | inl gone ↦ absurd (ground arith)
    | inr (before, e) ↦ (
      before,
      e,
      legal-⟶ before.status to (ground arith),
      ground (
        arith,
        find-update_self id (write_round to fields) before (meanwhile db).rounds
            (write_round-id to fields) e,
      ),
      ground arith,
    )
  ]

  -- A refused call has written nothing of its own.
  pub transition_round_refused :
      (e : Error) (db' : Db)
      → transition_round meanwhile id to fields db ≡ (err e, db')
      → (db' ≡ db) ⊎ (db' ≡ meanwhile db)
  unfolding transition_round
  transition_round_refused e db' h = elim (Option-cases (find id (meanwhile db).rounds)) [
    | inl gone ↦ ground arith
    | inr (before, f) ↦ ground (
      arith,
      find-update_self id (write_round to fields) before (meanwhile db).rounds
          (write_round-id to fields) f,
    )
  ]

-- The conditional updates of any number of concurrent calls, in the order in which the database
-- makes them.
pub record Request : Type 0 where
  pub round_id : ℕ
  pub to : RoundStatus
  pub fields : RoundData

pub run : List Request → Db → Db
run [] db = db
run (q ∷ qs) db = run qs (compare_and_set q.round_id q.to q.fields db).1

abbrev is_settlement : ℕ → Request → Bool
is_settlement k q = q.round_id == k && status_eq q.to RoundStatus.resolved

abbrev succeeded : Result Error Bool → Bool
succeeded (ok b) = b
succeeded (err e) = false

-- How often the round `k` is settled.
pub settlements : ℕ → List Request → Db → ℕ
settlements k [] db = 0
settlements k (q ∷ qs) db =
    let (r, db') = compare_and_set q.round_id q.to q.fields db in
    (if is_settlement k q && succeeded r then 1 else 0) + settlements k qs db'

-- One conditional update moves each row along an edge, or leaves it.
cas_row :
    (q : Request) (db : Db) (k : ℕ) (r : Round)
    → find k db.rounds ≡ some r
    → (r' : Round) × (find k (compare_and_set q.round_id q.to q.fields db).1.rounds ≡ some r')
      × ((r' ≡ r) ⊎ (r.status ⟶ r'.status))
unfolding compare_and_set
cas_row q db k r e = elim (Option-cases (find q.round_id db.rounds)) [
  | inl gone ↦ (r, ground arith, inl refl)
  | inr (x, f) ↦ elim (Bool-cases (is_legal_round_transition x.status q.to)) [
    | inl legal ↦ elim (Bool-cases (k == q.round_id)) [
      | inl same ↦ (
        write_round q.to q.fields r,
        ground (arith, find-update k q.round_id (write_round q.to q.fields) db.rounds (λ a. refl)),
        inr (let e' : x ≡ r = ground arith in legal-⟶ r.status q.to (rw (← e') legal)),
      )
      | inr other ↦ (
        r,
        ground (arith, find-update k q.round_id (write_round q.to q.fields) db.rounds (λ a. refl)),
        inl refl,
      )
    ]
    | inr illegal ↦ (r, ground arith, inl refl)
  ]
]

-- Along any sequence of conditional updates a round that is there stays there, and its status
-- follows the graph.
pub run-⟶* :
    (qs : List Request) (db : Db) (k : ℕ) (r : Round)
    → find k db.rounds ≡ some r
    → (r' : Round) × (find k (run qs db).rounds ≡ some r') × (r.status ⟶* r'.status)
unfolding run
run-⟶* [] db k r e = (r, e, here)
run-⟶* (q ∷ qs) db k r e =
    let (r₁, e₁, step) = cas_row q db k r e in
    let (r₂, e₂, path) = run-⟶* qs (compare_and_set q.round_id q.to q.fields db).1 k r₁ e₁ in
    (r₂, e₂, elim step [ inl same ↦ rw same at path | inr edge ↦ next edge path ])

-- A settled round is not settled again, and one that is not there is never settled.
abbrev IsSettled : Option Round → Type 0
IsSettled none = Unit
IsSettled (some r) = r.status ≡ RoundStatus.resolved

cas-IsSettled :
    (q : Request) (db : Db) (k : ℕ)
    → IsSettled (find k db.rounds)
    → IsSettled (find k (compare_and_set q.round_id q.to q.fields db).1.rounds)
      × ((is_settlement k q && succeeded (compare_and_set q.round_id q.to q.fields db).0) ≡ false)
unfolding compare_and_set
cas-IsSettled q db k h = elim (Option-cases (find q.round_id db.rounds)) [
  | inl gone ↦ ground arith
  | inr (x, f) ↦
      ground (arith, find-update k q.round_id (write_round q.to q.fields) db.rounds (λ a. refl))
]

cas_settles :
    (q : Request) (db : Db) (k : ℕ)
    → (is_settlement k q && succeeded (compare_and_set q.round_id q.to q.fields db).0) ≡ true
    → IsSettled (find k (compare_and_set q.round_id q.to q.fields db).1.rounds)
unfolding compare_and_set
cas_settles q db k h = elim (Option-cases (find q.round_id db.rounds)) [
  | inl gone ↦ ground arith
  | inr (x, f) ↦
      ground (arith, find-update k q.round_id (write_round q.to q.fields) db.rounds (λ a. refl))
]

settlements_after :
    (qs : List Request) (db : Db) (k : ℕ) → IsSettled (find k db.rounds) → settlements k qs db ≡ 0
unfolding settlements
settlements_after [] db k h = refl
settlements_after (q ∷ qs) db k h =
    let (still, nothing) = cas-IsSettled q db k h in
    ground (arith, settlements_after qs (compare_and_set q.round_id q.to q.fields db).1 k still)

-- However the conditional updates of concurrent calls are ordered, a round is settled at most once.
pub settled_at_most_once : (qs : List Request) (db : Db) (k : ℕ) → settlements k qs db ≤ 1
unfolding settlements
settled_at_most_once [] db k = omega arith
settled_at_most_once (q ∷ qs) db k =
    let db' : Db = (compare_and_set q.round_id q.to q.fields db).1 in
    elim (Bool-cases
      (is_settlement k q && succeeded (compare_and_set q.round_id q.to q.fields db).0)) [
        | inl hit ↦ rw hit (omega (arith, settlements_after qs db' k (cas_settles q db k hit)))
        | inr miss ↦ rw miss (omega (arith, settled_at_most_once qs db' k))
      ]
