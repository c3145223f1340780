-- ===== src/Tournaments.antt =====
-- Tournaments: src/services/tournament.service.ts and src/types/tournament.types.ts.
mod Rows
mod Standings
mod Allocation
mod Calls
pub mod Payout
pub mod Credits
pub mod Settling
pub mod Twice
pub mod Order
pub mod Roster
pub mod Capacity
unfoldable pub use Rows.*
unfoldable pub use Standings.*
unfoldable pub use Allocation.*
unfoldable pub use Calls.*
