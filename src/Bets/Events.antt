-- ===== src/Bets/Events.antt =====
-- `tx.outboxEvent.create`: a row of the outbox, with the defaults of its columns.
use xelma_backend.Base.{ℕ, ◌+◌, none, [], ◌∷◌, ◌++◌}
use xelma_backend.Schema.{Db, OutboxEvent, Payload, EventStatus}

unfoldable pub event : (id aggregate_id : ℕ) → Payload → OutboxEvent
event id aggregate_id payload = record {
  id = id;
  aggregate_id = aggregate_id;
  payload = payload;
  status = EventStatus.pending;
  attempts = 0;
  last_error = none;
}

unfoldable pub create_event : (aggregate_id : ℕ) → Payload → Db → Db
create_event aggregate_id payload db = record db {
  outbox = db.outbox ++ event db.next_id aggregate_id payload ∷ [];
  next_id = db.next_id + 1;
}
