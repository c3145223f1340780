-- ===== src/Outbox/Poller.antt =====
-- `processOutbox`, `dispatch` and the escalation of src/services/outbox.service.ts. What the
-- handlers answer is an argument; an error is a message. The database does not fail here, and a row
-- that is being processed is not deleted.
use xelma_backend.Base.{
  ℕ, ◌+◌, Bool, true, false, Option, none, some, String, List, [], ◌∷◌, ◌++◌, find, update, filter,
  take, leb, if◌then◌else◌,
}
use xelma_backend.Schema.{OutboxEvent, EventStatus, Payload, event_row}
use xelma_backend.Outbox.Rows.{DispatchStatus, Mailbox, event_status_eq, channel_of, event_name_of}

-- `record` of the dead letter queue.
abbrev pub record_failure : Payload → (error : String) → Mailbox → Mailbox
record_failure payload error m = record m {
  dead =
      m.dead
      ++ record {
        id = m.next_id;
        channel = channel_of payload;
        event_name = some (event_name_of payload);
        payload = payload;
        attempts = 1;
        status = DispatchStatus.pending;
        last_error = error;
        last_retry_at = none;
        resolved_at = none;
      }
        ∷ [];
  next_id = m.next_id + 1;
}

abbrev pub with_event_status : EventStatus → OutboxEvent → OutboxEvent
with_event_status s e = record e { status = s }

-- The claim: `updateMany({ where: { id, status: PENDING } })`, with whether it met the row.
unfoldable pub claim_event : (id : ℕ) → Mailbox → Bool × Mailbox
claim_event id m = elim (find id m.events) [
  | none ↦ (false, m)
  | some e ↦
      if event_status_eq e.status EventStatus.pending
      then (
        true,
        record m { events = update id (with_event_status EventStatus.processing) m.events },
      )
      else (false, m)
]

pub data Processed : Type 0 where
  skipped processed failed escalated : Processed

abbrev pub is_exhausted : (max_attempts : ℕ) → OutboxEvent → Bool
is_exhausted max_attempts row = leb max_attempts (row.attempts + 1)

abbrev pub status_after : Bool → EventStatus
status_after true = EventStatus.failed
status_after false = EventStatus.pending

-- The data of the update after a failure, from the attempts that the poller read.
abbrev pub failed_event :
    (max_attempts : ℕ) (error : String) → OutboxEvent → OutboxEvent → OutboxEvent
failed_event max_attempts error row e = record e {
  status = status_after (is_exhausted max_attempts row);
  attempts = row.attempts + 1;
  last_error = some error;
}

-- The handler accepted the event.
abbrev pub finish_event : OutboxEvent → Mailbox → Processed × Mailbox
finish_event row m = (
  Processed.processed,
  record m {
    events = update row.id (with_event_status EventStatus.processed) m.events;
    delivered = row.payload ∷ m.delivered;
  },
)

abbrev pub escalate_if : Bool → Payload → (error : String) → Mailbox → Processed × Mailbox
escalate_if true payload error m = (Processed.escalated, record_failure payload error m)
escalate_if false payload error m = (Processed.failed, m)

-- The handler threw.
abbrev pub fail_event :
    (max_attempts : ℕ) (error : String) → OutboxEvent → Mailbox → Processed × Mailbox
fail_event max_attempts error row m =
    escalate_if (is_exhausted max_attempts row) row.payload error
      (record m { events = update row.id (failed_event max_attempts error row) m.events })

module _ (max_attempts : ℕ) (answer : OutboxEvent → Option String) where
  abbrev pub after_dispatch : Option String → OutboxEvent → Mailbox → Processed × Mailbox
  after_dispatch none row m = finish_event row m
  after_dispatch (some error) row m = fail_event max_attempts error row m

  abbrev pub if_claimed : OutboxEvent → Bool × Mailbox → Processed × Mailbox
  if_claimed row (true, m) = after_dispatch (answer row) row m
  if_claimed row (false, m) = (Processed.skipped, m)

  -- The body of the loop, on a row as it was read.
  unfoldable pub process_row : OutboxEvent → Mailbox → Processed × Mailbox
  process_row row m = if_claimed row (claim_event row.id m)

  unfoldable pub process_rows : List OutboxEvent → Mailbox → List Processed × Mailbox
  process_rows [] m = ([], m)
  process_rows (row ∷ rows) m =
      let (p, m₁) = process_row row m in let (ps, m₂) = process_rows rows m₁ in (p ∷ ps, m₂)

abbrev pub is_pending_event : OutboxEvent → Bool
is_pending_event e = event_status_eq e.status EventStatus.pending

unfoldable pub pending_batch : (batch_size : ℕ) → List OutboxEvent → List OutboxEvent
pending_batch batch_size es = take batch_size (filter is_pending_event es)

-- `processOutbox`, with what became of each row in place of the counters.
unfoldable pub process_outbox :
    (max_attempts batch_size : ℕ) (answer : OutboxEvent → Option String)
    → Mailbox
    → List Processed × Mailbox
process_outbox max_attempts batch_size answer m =
    process_rows max_attempts answer (pending_batch batch_size m.events) m
