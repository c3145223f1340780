-- ===== src/Outbox.antt =====
-- Delivery of the events that the services queue: src/services/outbox.service.ts and
-- src/services/dead-letter-queue.service.ts.
mod Rows
mod Poller
mod DeadLetters
pub mod Delivery
pub mod Refinement
pub mod Exclusive
pub mod Interleaving
pub mod Replays
unfoldable pub use Rows.*
unfoldable pub use Poller.*
unfoldable pub use DeadLetters.*
