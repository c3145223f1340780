-- ===== src/Outbox/Interleaving.antt =====
-- What holds in every interleaving of the pollers.
use xelma_backend.Base.{
  ℕ, ◌≡◌, ◌≢◌, ◌==◌, refl, sym, ap, ◌∙◌, Bool, true, false, Option, none, some, List, [], ◌∷◌, find,
  find-update_ne, All, arith, Bool-cases, inl, inr,
}
use xelma_backend.Schema.{OutboxEvent, EventStatus, event_row}
use xelma_backend.Outbox.Rows.{Mailbox}
use xelma_backend.Outbox.Poller.{with_event_status, claim_event}
use xelma_backend.Outbox.Exclusive.{
  Office, Move, claims, answers, if_held, answered, make_move, make_moves, opening, IsProcessing,
  IsExclusive, make_move-IsExclusive, claim_event_met, claim_event_missed, after_dispatch_elsewhere,
}

abbrev pub is_settled_event : EventStatus → Bool
is_settled_event EventStatus.processed = true
is_settled_event EventStatus.failed = true
is_settled_event _ = false

held-IsProcessing :
    (id : ℕ) (es : List OutboxEvent) (row : OutboxEvent) (held : List OutboxEvent)
    → find id held ≡ some row
    → All (IsProcessing es) held
    → IsProcessing es row
held-IsProcessing id es row [] e h = absurd (ground arith)
held-IsProcessing id es row (x ∷ held) e h = elim (Bool-cases (x.id == id)) [
  | inl here ↦
      let (y, there, status) = h.0 in
      let same : x ≡ row = ground arith in (y, ap (λ r. find r.id es) (sym same) ∙ there, status)
  | inr other ↦ held-IsProcessing id es row held (ground arith) h.1
]

module _ (max_attempts : ℕ) where
  make_moves-IsExclusive :
      (xs : List Move) (o : Office) → IsExclusive o → IsExclusive (make_moves max_attempts xs o)
  unfolding make_moves
  make_moves-IsExclusive [] o well = well
  make_moves-IsExclusive (x ∷ xs) o well =
      make_moves-IsExclusive xs (make_move max_attempts x o)
        (make_move-IsExclusive max_attempts x o well)

  -- However the claims of pollers, on rows read at any time, and the answers of handlers follow each
  -- other, no event is ever being dispatched by two pollers, and every event that is being dispatched
  -- is PROCESSING in the database.
  pub opening-IsExclusive :
      (xs : List Move) (m : Mailbox) → IsExclusive (make_moves max_attempts xs (opening m))
  opening-IsExclusive xs m = make_moves-IsExclusive xs (opening m) (tt, tt)

  module _ (id : ℕ) (e : OutboxEvent) (settled : is_settled_event e.status ≡ true) where
    make_move_settled :
        (x : Move) (o : Office)
        → IsExclusive o
        → find id o.box.events ≡ some e
        → find id (make_move max_attempts x o).box.events ≡ some e
    unfolding make_move
    make_move_settled (claims row) o well there = by_claim (claim_event row.id o.box) refl
      where
        by_claim :
            (p : Bool × Mailbox)
            → claim_event row.id o.box ≡ p
            → find id (if_held row o.held p).box.events ≡ some e
        by_claim (true, m) q =
            let (f, was, status, events) = claim_event_met row.id o.box (ap (λ p. p.0) q) in
            let other : id ≢ row.id = λ same. ground arith in
            ap (λ es. find id es) (sym (ap (λ p. p.1.events) q) ∙ events)
            ∙ (find-update_ne id row.id (with_event_status EventStatus.processing) o.box.events
                  (λ e. refl) other
                ∙ there)
        by_claim (false, m) q =
            ap (λ b. find id b.events)
              (sym (ap (λ p. p.1) q) ∙ claim_event_missed row.id o.box (ap (λ p. p.0) q))
            ∙ there
    make_move_settled (answers k a) o well there = by_row (find k o.held) refl
      where
        by_row :
            (r : Option OutboxEvent)
            → find k o.held ≡ r
            → find id (answered max_attempts r a o).box.events ≡ some e
        by_row none q = there
        by_row (some row) q =
            let (f, was, status) = held-IsProcessing k o.box.events row o.held q well.1 in
            let other : id ≢ row.id = λ same. ground arith in
            after_dispatch_elsewhere max_attempts a row o.box id other ∙ there

    make_moves_settled :
        (xs : List Move) (o : Office)
        → IsExclusive o
        → find id o.box.events ≡ some e
        → find id (make_moves max_attempts xs o).box.events ≡ some e
    unfolding make_moves
    make_moves_settled [] o well there = there
    make_moves_settled (x ∷ xs) o well there =
        make_moves_settled xs (make_move max_attempts x o)
          (make_move-IsExclusive max_attempts x o well) (make_move_settled x o well there)

    -- An event that is PROCESSED or FAILED stays as it is in every such interleaving.
    pub settled_for_good :
        (xs : List Move) (m : Mailbox)
        → find id m.events ≡ some e
        → find id (make_moves max_attempts xs (opening m)).box.events ≡ some e
    settled_for_good xs m there = make_moves_settled xs (opening m) (tt, tt) there
