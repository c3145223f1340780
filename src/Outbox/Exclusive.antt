-- ===== src/Outbox/Exclusive.antt =====
-- Several pollers at once: claims and results in any order, on rows read at any time before.
use mathlib.Core.Path.{subst}
use xelma_backend.Base.{
  ℕ, ◌≡◌, ◌≢◌, ◌==◌, refl, sym, ap, ◌∙◌, Bool, true, false, Option, none, some, String, List, [],
  ◌∷◌, find, update, find-update_ne, find-update_self, All, if◌then◌else◌, arith, Bool-cases,
  Option-cases, inl, inr,
}
use xelma_backend.Schema.{OutboxEvent, EventStatus, event_row}
use xelma_backend.Outbox.Rows.{Mailbox}
use xelma_backend.Outbox.Poller.{
  with_event_status, claim_event, failed_event, escalate_if, is_exhausted, after_dispatch,
}
use xelma_backend.Outbox.Refinement.{IsUnique}

-- The mailbox, and the rows that pollers have claimed and are dispatching, as they read them.
pub record Office : Type 0 where
  pub box : Mailbox
  pub held : List OutboxEvent

-- A poller claims a row that it has read, or a handler answers for a row that is held.
pub data Move : Type 0 where
  claims : OutboxEvent → Move
  answers : (id : ℕ) → Option String → Move

abbrev pub let_go : (id : ℕ) → List OutboxEvent → List OutboxEvent
let_go id [] = []
let_go id (e ∷ es) = if e.id == id then es else e ∷ let_go id es

abbrev pub if_held : OutboxEvent → List OutboxEvent → Bool × Mailbox → Office
if_held row held (true, m) = record { box = m; held = row ∷ held }
if_held row held (false, m) = record { box = m; held = held }

abbrev pub answered : (max_attempts : ℕ) → Option OutboxEvent → Option String → Office → Office
answered max_attempts none a o = o
answered max_attempts (some row) a o = record {
  box = (after_dispatch max_attempts (λ e. a) a row o.box).1;
  held = let_go row.id o.held;
}

unfoldable pub make_move : (max_attempts : ℕ) → Move → Office → Office
make_move max_attempts (claims row) o = if_held row o.held (claim_event row.id o.box)
make_move max_attempts (answers id a) o = answered max_attempts (find id o.held) a o

unfoldable pub make_moves : (max_attempts : ℕ) → List Move → Office → Office
make_moves max_attempts [] o = o
make_moves max_attempts (x ∷ xs) o = make_moves max_attempts xs (make_move max_attempts x o)

abbrev pub opening : Mailbox → Office
opening m = record { box = m; held = [] }

abbrev pub IsProcessing : List OutboxEvent → OutboxEvent → Type 0
IsProcessing es row =
    (e : OutboxEvent) × (find row.id es ≡ some e) × (e.status ≡ EventStatus.processing)

abbrev pub IsExclusive : Office → Type 0
IsExclusive o = IsUnique o.held × All (IsProcessing o.box.events) o.held

let_go-find-none :
    (k id : ℕ) (es : List OutboxEvent) → find k es ≡ none → find k (let_go id es) ≡ none
let_go-find-none k id [] e = refl
let_go-find-none k id (x ∷ es) e = ground (arith, let_go-find-none k id es)

-- What is held after a row was let go is another row.
abbrev IsOther : ℕ → OutboxEvent → Type 0
IsOther id e = e.id ≢ id

find-none-IsOther : (id : ℕ) (es : List OutboxEvent) → find id es ≡ none → All (IsOther id) es
find-none-IsOther id [] e = tt
find-none-IsOther id (x ∷ es) e = (λ same. ground arith, find-none-IsOther id es (ground arith))

let_go-IsUnique : (id : ℕ) (es : List OutboxEvent) → IsUnique es → IsUnique (let_go id es)
let_go-IsUnique id [] u = tt
let_go-IsUnique id (x ∷ es) u =
    by_key (x.id == id) (let_go-find-none x.id id es u.0) (let_go-IsUnique id es u.1)
  where
    by_key :
        (b : Bool)
        → find x.id (let_go id es) ≡ none
        → IsUnique (let_go id es)
        → IsUnique (if b then es else x ∷ let_go id es)
    by_key true new v = u.1
    by_key false new v = (new, v)

-- The others keep their rows in the outbox.
keep-IsProcessing :
    (id : ℕ) (before after : List OutboxEvent)
    → ((k : ℕ) → k ≢ id → find k after ≡ find k before)
    → (es : List OutboxEvent) → All (IsOther id) es
    → All (IsProcessing before) es
    → All (IsProcessing after) es
keep-IsProcessing id before after same [] other h = tt
keep-IsProcessing id before after same (x ∷ es) other h =
    let (e, there, status) = h.0 in
    ((e, same x.id other.0 ∙ there, status), keep-IsProcessing id before after same es other.1 h.1)

let_go-IsProcessing :
    (id : ℕ) (before after : List OutboxEvent)
    → ((k : ℕ) → k ≢ id → find k after ≡ find k before)
    → (es : List OutboxEvent) → IsUnique es
    → All (IsProcessing before) es
    → All (IsProcessing after) (let_go id es)
let_go-IsProcessing id before after same [] u h = tt
let_go-IsProcessing id before after same (x ∷ es) u h =
    by_key (x.id == id) refl (let_go-IsProcessing id before after same es u.1 h.1)
  where
    by_key :
        (b : Bool)
        → (x.id == id) ≡ b
        → All (IsProcessing after) (let_go id es)
        → All (IsProcessing after) (if b then es else x ∷ let_go id es)
    by_key true e rest =
        let its : x.id ≡ id = ground arith in
        keep-IsProcessing id before after same es
          (find-none-IsOther id es (ap (λ k. find k es) (sym its) ∙ u.0)) h.1
    by_key false e rest =
        let (y, there, status) = h.0 in ((y, same x.id (λ q. ground arith) ∙ there, status), rest)

-- The writes of a poller that holds a row touch that row only.
pub after_dispatch_elsewhere :
    (max_attempts : ℕ) (a : Option String) (row : OutboxEvent) (m : Mailbox) (k : ℕ)
    → k ≢ row.id
    → find k (after_dispatch max_attempts (λ e. a) a row m).1.events ≡ find k m.events
after_dispatch_elsewhere max_attempts none row m k ne =
    find-update_ne k row.id (with_event_status EventStatus.processed) m.events (λ e. refl) ne
after_dispatch_elsewhere max_attempts (some error) row m k ne =
    by_limit (is_exhausted max_attempts row)
  where
    marked : Mailbox
    marked = record m { events = update row.id (failed_event max_attempts error row) m.events }

    by_limit :
        (b : Bool) → find k (escalate_if b row.payload error marked).1.events ≡ find k m.events
    by_limit true =
        find-update_ne k row.id (failed_event max_attempts error row) m.events (λ e. refl) ne
    by_limit false =
        find-update_ne k row.id (failed_event max_attempts error row) m.events (λ e. refl) ne

-- A claim: what it does if it meets a row.
pub claim_event_met :
    (id : ℕ) (m : Mailbox)
    → (claim_event id m).0 ≡ true
    → (e : OutboxEvent) × (find id m.events ≡ some e)
      × (e.status ≡ EventStatus.pending)
      × ((claim_event id m).1.events
          ≡ update id (with_event_status EventStatus.processing) m.events)
unfolding claim_event
claim_event_met id m met = elim (Option-cases (find id m.events)) [
  | inl gone ↦ absurd (ground arith)
  | inr (e, there) ↦ (e, there, ground arith, ground arith)
]

pub claim_event_missed :
    (id : ℕ) (m : Mailbox) → (claim_event id m).0 ≡ false → (claim_event id m).1 ≡ m
unfolding claim_event
claim_event_missed id m missed = elim (Option-cases (find id m.events)) [
  | inl gone ↦ ground arith
  | inr (e, there) ↦ ground arith
]

not_held :
    (id : ℕ) (es : List OutboxEvent) (e : OutboxEvent) (held : List OutboxEvent)
    → find id es ≡ some e
    → e.status ≡ EventStatus.pending
    → All (IsProcessing es) held
    → find id held ≡ none
not_held id es e [] there status h = refl
not_held id es e (x ∷ held) there status h =
    let rest = not_held id es e held there status h.1 in
    let (y, its, processing) = h.0 in
    elim (Bool-cases (x.id == id)) [ inl same ↦ absurd (ground arith) | inr other ↦ ground arith ]

module _ (max_attempts : ℕ) where
  pub make_move-IsExclusive :
      (x : Move) (o : Office) → IsExclusive o → IsExclusive (make_move max_attempts x o)
  unfolding make_move
  make_move-IsExclusive (claims row) o well = by_claim (claim_event row.id o.box) refl
    where
      by_claim :
          (p : Bool × Mailbox) → claim_event row.id o.box ≡ p → IsExclusive (if_held row o.held p)
      by_claim (true, m) e =
          let (f, there, status, events) = claim_event_met row.id o.box (ap (λ p. p.0) e) in
          let new = not_held row.id o.box.events f o.held there status well.1 in
          let writes : m.events
              ≡ update row.id (with_event_status EventStatus.processing) o.box.events =
            sym (ap (λ p. p.1.events) e) ∙ events in
          let claimed : find row.id m.events ≡ some (with_event_status EventStatus.processing f) =
            ap (λ es. find row.id es) writes
            ∙ find-update_self row.id (with_event_status EventStatus.processing) f o.box.events
                (λ e. refl) there in
          (
            (new, well.0),
            (
              (with_event_status EventStatus.processing f, claimed, refl),
              keep-IsProcessing row.id o.box.events m.events
                  (λ k ne.
                    ap (λ es. find k es) writes
                    ∙ find-update_ne k row.id (with_event_status EventStatus.processing)
                        o.box.events (λ e. refl) ne)
                  o.held (find-none-IsOther row.id o.held new) well.1,
            ),
          )
      by_claim (false, m) e =
          let same : m ≡ o.box =
            sym (ap (λ p. p.1) e) ∙ claim_event_missed row.id o.box (ap (λ p. p.0) e) in
          (well.0, subst (λ b. All (IsProcessing b.events) o.held) (sym same) well.1)
  make_move-IsExclusive (answers id a) o well = by_row (find id o.held)
    where
      by_row : (r : Option OutboxEvent) → IsExclusive (answered max_attempts r a o)
      by_row none = well
      by_row (some row) = (
        let_go-IsUnique row.id o.held well.0,
        let_go-IsProcessing row.id o.box.events
            (after_dispatch max_attempts (λ e. a) a row o.box).1.events
            (after_dispatch_elsewhere max_attempts a row o.box) o.held well.0 well.1,
      )
