-- ===== src/Outbox/Rows.antt =====
-- The dead letters, and the state that the poller and the replays work on.
use xelma_backend.Base.{ℕ, Bool, true, false, Option, String, List, Row}
use xelma_backend.Schema.{OutboxEvent, Payload, EventStatus}

pub data DispatchChannel : Type 0 where
  notification_create websocket_emit : DispatchChannel

pub data DispatchStatus : Type 0 where
  pending retrying resolved abandoned : DispatchStatus

pub record FailedDispatch : Type 0 where
  pub id : ℕ
  pub channel : DispatchChannel
  pub event_name : Option String
  pub payload : Payload
  pub attempts : ℕ
  pub status : DispatchStatus
  pub last_error : String
  pub last_retry_at : Option ℕ
  pub resolved_at : Option ℕ

-- The outbox, in the order in which the events were made, the dead letters, and the payloads that a
-- handler has accepted, the newest first.
pub record Mailbox : Type 0 where
  pub events : List OutboxEvent
  pub dead : List FailedDispatch
  pub delivered : List Payload
  pub next_id : ℕ

instance abbrev pub dead_row : Row FailedDispatch
dead_row = record { key = λ d. d.id }

abbrev pub event_status_eq : EventStatus → EventStatus → Bool
event_status_eq EventStatus.pending EventStatus.pending = true
event_status_eq EventStatus.processing EventStatus.processing = true
event_status_eq EventStatus.processed EventStatus.processed = true
event_status_eq EventStatus.failed EventStatus.failed = true
event_status_eq _ _ = false

-- The channel of a dead letter: all but notifications go to the sockets, bets too.
abbrev pub channel_of : Payload → DispatchChannel
channel_of (Payload.notification user kind round amount) = DispatchChannel.notification_create
channel_of _ = DispatchChannel.websocket_emit

-- `payload.eventName ?? eventType`
abbrev pub event_name_of : Payload → String
event_name_of (Payload.notification user kind round amount) = "NOTIFICATION_CREATE"
event_name_of (Payload.notification_new room user kind round amount) = "notification:new"
event_name_of (Payload.prediction_placed room round prediction amount side range) =
    "prediction:placed"
event_name_of (Payload.round_update room round) = "round_update"
event_name_of (Payload.bet_accepted bet user round mode side amount stub tx_hash) = "BET_ACCEPTED"
event_name_of (Payload.bet_confirmed bet user round mode tx_hash) = "BET_CONFIRMED"
event_name_of (Payload.bet_resolved bet user round mode won payout) = "BET_RESOLVED"
event_name_of (Payload.bet_failed bet user round mode reason) = "BET_FAILED"
