-- ===== src/Sessions.antt =====
-- Persisted sessions of socket clients: src/services/multiplayer-session.service.ts.
mod Rooms
mod Service
pub mod Clamped
pub mod Reconciled
pub mod Runs
unfoldable pub use Rooms.*
unfoldable pub use Service.*
