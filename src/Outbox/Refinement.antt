-- ===== src/Outbox/Refinement.antt =====
-- The poller refines the delivery of Outbox.Delivery.
use xelma_backend.Base.{
  ℕ, zero, suc, ◌≡◌, ◌≢◌, ◌+◌, ◌==◌, refl, sym, ap, ◌∙◌, Bool, true, false, Option, none, some,
  String, List, [], ◌∷◌, ◌++◌, map, find, update, find-update, find-update_ne, filter, take, All,
  leb, if◌then◌else◌, arith, Bool-cases, inl, inr,
}
use xelma_backend.Schema.{OutboxEvent, EventStatus, event_row}
use xelma_backend.Outbox.Rows.{Mailbox, FailedDispatch, event_status_eq}
use xelma_backend.Outbox.Poller.{
  with_event_status, claim_event, is_exhausted, failed_event, escalate_if, after_dispatch,
  if_claimed, process_row, process_rows, is_pending_event, pending_batch, process_outbox,
}
use xelma_backend.Outbox.Delivery.{
  Delivery, waiting, dead, done, Post, delivery, delivery_of, abstraction, move, fail_spec,
  attempt_waiting, attempt_spec, poll_spec, accepts_of,
}

-- Identifiers are unique.
abbrev pub IsUnique : List OutboxEvent → Type 0
IsUnique [] = Unit
IsUnique (e ∷ es) = (find e.id es ≡ none) × IsUnique es

-- The row is as the poller read it, and pending.
abbrev pub IsAsRead : List OutboxEvent → OutboxEvent → Type 0
IsAsRead es row = (find row.id es ≡ some row) × (row.status ≡ EventStatus.pending)

take-find-none : (n k : ℕ) (es : List OutboxEvent) → find k es ≡ none → find k (take n es) ≡ none
take-find-none zero k es e = refl
take-find-none (suc n) k [] e = refl
take-find-none (suc n) k (x ∷ es) e = ground (arith, take-find-none n k es)

filter-find-none :
    (k : ℕ) (es : List OutboxEvent) → find k es ≡ none → find k (filter is_pending_event es) ≡ none
filter-find-none k [] e = refl
filter-find-none k (x ∷ es) e = ground (arith, filter-find-none k es)

take-IsUnique : (n : ℕ) (es : List OutboxEvent) → IsUnique es → IsUnique (take n es)
take-IsUnique zero es u = tt
take-IsUnique (suc n) [] u = tt
take-IsUnique (suc n) (e ∷ es) u = (take-find-none n e.id es u.0, take-IsUnique n es u.1)

take-All : (P : OutboxEvent → Type 0) (n : ℕ) (es : List OutboxEvent) → All P es → All P (take n es)
take-All P zero es h = tt
take-All P (suc n) [] h = tt
take-All P (suc n) (e ∷ es) h = (h.0, take-All P n es h.1)

map-All :
    (P Q : OutboxEvent → Type 0)
    → ((e : OutboxEvent) → P e → Q e)
    → (es : List OutboxEvent) → All P es
    → All Q es
map-All P Q f [] h = tt
map-All P Q f (e ∷ es) h = (f e h.0, map-All P Q f es h.1)

below_other :
    (x : OutboxEvent) (es : List OutboxEvent)
    → find x.id es ≡ none
    → (row : OutboxEvent) → IsAsRead es row
    → IsAsRead (x ∷ es) row
below_other x es gone row h = (ground (arith, h.0), h.1)

filter-IsAsRead :
    (es : List OutboxEvent) → IsUnique es → All (IsAsRead es) (filter is_pending_event es)
filter-IsAsRead [] u = tt
filter-IsAsRead (x ∷ es) u =
    let rest =
      map-All (IsAsRead es) (IsAsRead (x ∷ es)) (below_other x es u.0) (filter is_pending_event es)
        (filter-IsAsRead es u.1) in
    by_status (is_pending_event x) refl rest
  where
    pending_of :
        event_status_eq x.status EventStatus.pending ≡ true → x.status ≡ EventStatus.pending
    pending_of e = ground arith

    by_status :
        (b : Bool)
        → is_pending_event x ≡ b
        → All (IsAsRead (x ∷ es)) (filter is_pending_event es)
        → All
            (IsAsRead (x ∷ es))
            (if b then x ∷ filter is_pending_event es else filter is_pending_event es)
    by_status true e rest = ((ground arith, pending_of e), rest)
    by_status false e rest = rest

filter-IsUnique : (es : List OutboxEvent) → IsUnique es → IsUnique (filter is_pending_event es)
filter-IsUnique [] u = tt
filter-IsUnique (x ∷ es) u =
    by_status (is_pending_event x) (filter-find-none x.id es u.0) (filter-IsUnique es u.1)
  where
    by_status :
        (b : Bool)
        → find x.id (filter is_pending_event es) ≡ none
        → IsUnique (filter is_pending_event es)
        → IsUnique (if b then x ∷ filter is_pending_event es else filter is_pending_event es)
    by_status true gone u = (gone, u)
    by_status false gone u = u

abbrev after_claim : OutboxEvent → Mailbox → Mailbox
after_claim row m = record m {
  events = update row.id (with_event_status EventStatus.processing) m.events;
}

map_payload-append :
    (ds : List FailedDispatch) (d : FailedDispatch)
    → map (λ d. d.payload) (ds ++ d ∷ []) ≡ map (λ d. d.payload) ds ++ d.payload ∷ []
map_payload-append [] d = refl
map_payload-append (x ∷ ds) d = ap (λ ps. x.payload ∷ ps) (map_payload-append ds d)

-- Two views are equal if their parts are.
Post-ext :
    (p q : Post)
    → ((k : ℕ) → p.where_is k ≡ q.where_is k)
    → p.accepted ≡ q.accepted
    → p.letters ≡ q.letters
    → p ≡ q
Post-ext p q h a l i = record { where_is = λ k. h k i; accepted = a i; letters = l i }

claim_as_read :
    (row : OutboxEvent) (m : Mailbox)
    → IsAsRead m.events row
    → claim_event row.id m ≡ (true, after_claim row m)
unfolding claim_event
claim_as_read row m h = ground (arith, h.0, h.1)

module _ (max_attempts : ℕ) (answer : OutboxEvent → Option String) where
  process_row_claims :
      (row : OutboxEvent) (m : Mailbox)
      → IsAsRead m.events row
      → process_row max_attempts answer row m
        ≡ after_dispatch max_attempts answer (answer row) row (after_claim row m)
  unfolding process_row
  process_row_claims row m h = ap (if_claimed max_attempts answer row) (claim_as_read row m h)

  -- A write after the claim, seen from outside.
  written :
      (row : OutboxEvent) (f : OutboxEvent → OutboxEvent) (m : Mailbox) (k : ℕ) (d : Delivery)
      → IsAsRead m.events row
      → ((e : OutboxEvent) → (f e).id ≡ e.id)
      → ((e : OutboxEvent) → delivery (f e).status (f e).attempts ≡ d)
      → delivery_of (find k (update row.id f (after_claim row m).events))
        ≡ move row.id d (abstraction m).where_is k
  written row f m k d h keeps is =
      let claimed =
        find-update k row.id (with_event_status EventStatus.processing) m.events (λ e. refl) in
      let finished = find-update k row.id f (after_claim row m).events keeps in
      elim (Bool-cases (k == row.id)) [
        | inl here ↦
            let there : find k m.events ≡ some row = ground (arith, h.0) in
            ground (arith, is (with_event_status EventStatus.processing row))
        | inr other ↦ ground arith
      ]

  waits :
      (row : OutboxEvent) (m : Mailbox)
      → IsAsRead m.events row
      → (abstraction m).where_is row.id ≡ some (waiting row.attempts)
  waits row m h = ground (arith, h.0, h.1)

  -- One row, by what its handler answers.
  dispatched :
      (a : Option String) (row : OutboxEvent) (m : Mailbox)
      → IsAsRead m.events row
      → abstraction (after_dispatch max_attempts answer a row (after_claim row m)).1
        ≡ attempt_waiting max_attempts
            (accepts_of a)
            row.id
            row.payload
            (some (waiting row.attempts))
            (abstraction m)
  dispatched none row m h =
      Post-ext _ _
        (λ k.
          written row (with_event_status EventStatus.processed) m k done h (λ e. refl) (λ e. refl))
        refl refl
  dispatched (some error) row m h = by_limit (leb max_attempts (row.attempts + 1)) refl
    where
      failing : OutboxEvent → OutboxEvent
      failing = failed_event max_attempts error row

      marked : Mailbox
      marked = record m { events = update row.id failing (after_claim row m).events }

      by_limit :
          (b : Bool)
          → is_exhausted max_attempts row ≡ b
          → abstraction (escalate_if b row.payload error marked).1
            ≡ fail_spec max_attempts b row.id (row.attempts + 1) row.payload (abstraction m)
      by_limit true e =
          Post-ext _ _
            (λ k.
              written row failing m k (dead (row.attempts + 1)) h (λ e. refl)
                (λ x. ground (arith, e)))
            refl (map_payload-append m.dead _)
      by_limit false e =
          Post-ext _ _
            (λ k.
              written row failing m k (waiting (row.attempts + 1)) h (λ e. refl)
                (λ x. ground (arith, e)))
            refl refl

  process_row_refines :
      (row : OutboxEvent) (m : Mailbox)
      → IsAsRead m.events row
      → abstraction (process_row max_attempts answer row m).1
        ≡ attempt_spec max_attempts (accepts_of (answer row)) row.id row.payload (abstraction m)
  unfolding attempt_spec
  process_row_refines row m h =
      ap (λ x. abstraction x.1) (process_row_claims row m h)
      ∙ (dispatched (answer row) row m h
          ∙ ap
              (λ d.
                attempt_waiting max_attempts (accepts_of (answer row)) row.id row.payload d
                  (abstraction m))
              (sym (waits row m h)))

  elsewhere :
      (a : Option String) (row : OutboxEvent) (m : Mailbox) (k : ℕ)
      → k ≢ row.id
      → find k (after_dispatch max_attempts answer a row (after_claim row m)).1.events
        ≡ find k m.events
  elsewhere none row m k ne =
      find-update_ne k row.id (with_event_status EventStatus.processed) (after_claim row m).events
        (λ e. refl) ne
      ∙ find-update_ne k row.id (with_event_status EventStatus.processing) m.events (λ e. refl) ne
  elsewhere (some error) row m k ne =
      same_events (is_exhausted max_attempts row)
      ∙ (find-update_ne k row.id (failed_event max_attempts error row) (after_claim row m).events
            (λ e. refl) ne
          ∙ find-update_ne k row.id (with_event_status EventStatus.processing) m.events (λ e. refl)
              ne)
    where
      marked : Mailbox
      marked = record m {
        events = update row.id (failed_event max_attempts error row) (after_claim row m).events;
      }

      same_events :
          (b : Bool)
          → find k (escalate_if b row.payload error marked).1.events ≡ find k marked.events
      same_events true = refl
      same_events false = refl

  still-IsAsRead :
      (row : OutboxEvent) (m : Mailbox) (rows : List OutboxEvent)
      → IsAsRead m.events row
      → find row.id rows ≡ none
      → All (IsAsRead m.events) rows
      → All (IsAsRead (process_row max_attempts answer row m).1.events) rows
  still-IsAsRead row m [] h new all = tt
  still-IsAsRead row m (x ∷ xs) h new all =
      let other : x.id ≢ row.id = λ e. ground (arith, new) in
      (
        (
          ap (λ p. find x.id p.1.events) (process_row_claims row m h)
              ∙ (elsewhere (answer row) row m x.id other ∙ all.0.0),
          all.0.1,
        ),
        still-IsAsRead row m xs h (ground (arith, new)) all.1,
      )

  process_rows_refines :
      (rows : List OutboxEvent) (m : Mailbox)
      → All (IsAsRead m.events) rows
      → IsUnique rows
      → abstraction (process_rows max_attempts answer rows m).1
        ≡ poll_spec max_attempts (λ e. accepts_of (answer e)) rows (abstraction m)
  unfolding process_rows poll_spec
  process_rows_refines [] m all new = refl
  process_rows_refines (row ∷ rows) m all new =
      let next = (process_row max_attempts answer row m).1 in
      process_rows_refines rows next (still-IsAsRead row m rows all.0 new.0 all.1) new.1
      ∙ ap (poll_spec max_attempts (λ e. accepts_of (answer e)) rows)
          (process_row_refines row m all.0)

-- If identifiers are unique and nobody else polls, a poll is what Outbox.Delivery promises: seen from
-- outside it makes one attempt, in order, at each of the oldest waiting events up to the batch size.
-- An accepted event is done and its payload delivered once; a refused one waits with one more failure
-- or, at the limit, is dead and leaves one dead letter.
pub process_outbox-Refines :
    (max_attempts batch_size : ℕ) (answer : OutboxEvent → Option String) (m : Mailbox)
    → IsUnique m.events
    → abstraction (process_outbox max_attempts batch_size answer m).1
      ≡ poll_spec max_attempts
          (λ e. accepts_of (answer e))
          (pending_batch batch_size m.events)
          (abstraction m)
unfolding process_outbox pending_batch
process_outbox-Refines max_attempts batch_size answer m unique =
    process_rows_refines max_attempts answer (take batch_size (filter is_pending_event m.events)) m
      (take-All (IsAsRead m.events) batch_size (filter is_pending_event m.events)
        (filter-IsAsRead m.events unique))
      (take-IsUnique batch_size (filter is_pending_event m.events)
        (filter-IsUnique m.events unique))
