-- ===== src/Claims.antt =====
-- Claims of on-chain winnings: `claimWinnings` of src/services/bet.service.ts and
-- src/services/payout-reconciliation.service.ts.
mod Rows
mod Writes
mod Claiming
mod Worker
mod Sweep
mod Walk
mod Finality
mod SweepWalk
pub mod Calls
pub mod Final
pub mod Single
pub mod Attempts
unfoldable pub use Rows.*
unfoldable pub use Writes.*
unfoldable pub use Claiming.*
unfoldable pub use Worker.*
unfoldable pub use Sweep.*
