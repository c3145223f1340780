-- ===== src/Bets.antt =====
-- The bet records: src/services/bet.service.ts.
mod Events
mod Status
mod Placing
pub mod Laws
pub mod Runs
pub mod Placement
unfoldable pub use Events.*
unfoldable pub use Status.*
unfoldable pub use Placing.*
