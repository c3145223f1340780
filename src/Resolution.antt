-- ===== src/Resolution.antt =====
-- Round settlement: src/services/resolution.service.ts.
mod Writes
mod UpDown
mod Legends
mod Resolve
pub mod Accounts
pub mod Awards
pub mod Solvency
pub mod Safety
pub mod Payment
mod Untouched
pub mod Race
unfoldable pub use Writes.*
unfoldable pub use UpDown.*
unfoldable pub use Legends.*
unfoldable pub use Resolve.*
