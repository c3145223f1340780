-- ===== src/Tests/Delivering.antt =====
-- Polls of an outbox with three events, two pollers that interleave, and a replay of dead letters.
use xelma_backend.Base.{
  ℕ, ◌≡◌, ◌≤◌, ◌+◌, refl, Option, none, some, String, List, [], ◌∷◌, find, map, ◌==◌, if◌then◌else◌,
}
use xelma_backend.Schema.{OutboxEvent, EventStatus, Payload, BetMode, event_row}
use xelma_backend.Outbox.{
  Mailbox, process_outbox, pending_batch, retry_all, process_rows, process_row, claim_event,
  DispatchChannel,
}
use xelma_backend.Outbox.Delivery.{abstraction, poll_spec, accepts_of}
use xelma_backend.Outbox.Refinement.{process_outbox-Refines}
use xelma_backend.Outbox.Exclusive.{Move, claims, answers, make_moves, opening, IsExclusive}
use xelma_backend.Outbox.Interleaving.{opening-IsExclusive, settled_for_good}
use xelma_backend.Outbox.Replays.{retry_all_adds_up}

abbrev an_event : (id attempts : ℕ) → EventStatus → OutboxEvent
an_event id attempts status = record {
  id = id;
  aggregate_id = 31;
  payload = Payload.bet_failed id 1 none BetMode.up_down "no";
  status = status;
  attempts = attempts;
  last_error = none;
}

abbrev a_mailbox : Mailbox
a_mailbox = record {
  events =
      an_event 1 0 EventStatus.pending
      ∷ an_event 2 2 EventStatus.pending
      ∷ an_event 3 0 EventStatus.processed
      ∷ [];
  dead = [];
  delivered = [];
  next_id = 9;
}

-- The handler accepts the first event only.
abbrev first_only : OutboxEvent → Option String
first_only e = if e.id == 1 then none else some "down"

abbrev after_poll : Mailbox
after_poll = (process_outbox 3 50 first_only a_mailbox).1

process_outbox-Refines_example :
    abstraction after_poll
    ≡ poll_spec 3
        (λ e. accepts_of (first_only e))
        (pending_batch 50 a_mailbox.events)
        (abstraction a_mailbox)
process_outbox-Refines_example =
    process_outbox-Refines 3 50 first_only a_mailbox (refl, (refl, (refl, tt)))

-- The second event was at its last attempt: it leaves a dead letter, and on the channel of the
-- sockets, although it is about a bet.
after_one_poll :
    (map (λ e. e.status) after_poll.events
      ≡ EventStatus.processed ∷ EventStatus.failed ∷ EventStatus.processed ∷ [])
    × (map (λ d. d.channel) after_poll.dead ≡ DispatchChannel.websocket_emit ∷ [])
unfolding process_outbox process_rows process_row claim_event pending_batch
after_one_poll = (refl, refl)

-- Two pollers go for the same event.
abbrev a_race : List Move
a_race =
    claims (an_event 1 0 EventStatus.pending)
    ∷ claims (an_event 1 0 EventStatus.pending)
    ∷ answers 1 none
    ∷ answers 1 none
    ∷ []

opening-IsExclusive_example : IsExclusive (make_moves 3 a_race (opening a_mailbox))
opening-IsExclusive_example = opening-IsExclusive 3 a_race a_mailbox

settled_for_good_example :
    find 3 (make_moves 3 a_race (opening a_mailbox)).box.events
    ≡ some (an_event 3 0 EventStatus.processed)
settled_for_good_example =
    settled_for_good 3 3 (an_event 3 0 EventStatus.processed) refl a_race a_mailbox refl

retry_all_adds_up_example :
    ((retry_all 5 0 2 (λ d. some "down") after_poll).0.resolved
        + (retry_all 5 0 2 (λ d. some "down") after_poll).0.failed
      ≡ (retry_all 5 0 2 (λ d. some "down") after_poll).0.attempted)
    × ((retry_all 5 0 2 (λ d. some "down") after_poll).0.abandoned
        ≤ (retry_all 5 0 2 (λ d. some "down") after_poll).0.failed)
    × ((retry_all 5 0 2 (λ d. some "down") after_poll).0.attempted ≤ 200)
retry_all_adds_up_example = retry_all_adds_up 5 0 2 (λ d. some "down") after_poll
