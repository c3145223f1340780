-- ===== src/Outbox/Delivery.antt =====
-- What the outbox promises, without claims, row versions and the layout of dead letters: a poll makes
-- one attempt at each event of its batch.
use xelma_backend.Base.{
  ℕ, ◌+◌, ◌==◌, Bool, true, false, Option, none, some, String, List, [], ◌∷◌, ◌++◌, map, find, leb,
  if◌then◌else◌,
}
use xelma_backend.Schema.{OutboxEvent, EventStatus, Payload, event_row}
use xelma_backend.Outbox.Rows.{Mailbox}

-- Where an event is; the numbers count failures.
pub data Delivery : Type 0 where
  waiting working dead : ℕ → Delivery
  done : Delivery

pub record Post : Type 0 where
  pub where_is : ℕ → Option Delivery
  pub accepted : List Payload
  pub letters : List Payload

abbrev pub delivery : EventStatus → (attempts : ℕ) → Delivery
delivery EventStatus.pending n = waiting n
delivery EventStatus.processing n = working n
delivery EventStatus.processed n = done
delivery EventStatus.failed n = dead n

abbrev pub delivery_of : Option OutboxEvent → Option Delivery
delivery_of none = none
delivery_of (some e) = some (delivery e.status e.attempts)

-- The abstract view of a mailbox.
abbrev pub abstraction : Mailbox → Post
abstraction m = record {
  where_is = λ id. delivery_of (find id m.events);
  accepted = m.delivered;
  letters = map (λ d. d.payload) m.dead;
}

abbrev pub move : (id : ℕ) → Delivery → (ℕ → Option Delivery) → ℕ → Option Delivery
move id d where_is k = if k == id then some d else where_is k

module _ (max_attempts : ℕ) where
  abbrev pub fail_spec : Bool → (id failures : ℕ) → Payload → Post → Post
  fail_spec true id failures payload p = record p {
    where_is = move id (dead failures) p.where_is;
    letters = p.letters ++ payload ∷ [];
  }
  fail_spec false id failures payload p = record p {
    where_is = move id (waiting failures) p.where_is;
  }

  abbrev pub attempt_waiting : (accepts : Bool) (id : ℕ) → Payload → Option Delivery → Post → Post
  attempt_waiting true id payload (some (waiting n)) p = record p {
    where_is = move id done p.where_is;
    accepted = payload ∷ p.accepted;
  }
  attempt_waiting false id payload (some (waiting n)) p =
      fail_spec (leb max_attempts (n + 1)) id (n + 1) payload p
  attempt_waiting accepts id payload d p = p

  -- One attempt at an event, at once; an event that is not waiting stays where it is.
  unfoldable pub attempt_spec : (accepts : Bool) (id : ℕ) → Payload → Post → Post
  attempt_spec accepts id payload p = attempt_waiting accepts id payload (p.where_is id) p

  unfoldable pub poll_spec : (accepts : OutboxEvent → Bool) → List OutboxEvent → Post → Post
  poll_spec accepts [] p = p
  poll_spec accepts (e ∷ es) p = poll_spec accepts es (attempt_spec (accepts e) e.id e.payload p)

abbrev pub accepts_of : Option String → Bool
accepts_of none = true
accepts_of (some error) = false
