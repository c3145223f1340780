-- ===== src/Predictions.antt =====
-- Predictions and their stakes: src/services/prediction.service.ts and
-- src/services/prediction-reconciliation.service.ts.
mod Reserving
mod Finalizing
mod Reconciling
unfoldable pub use Reserving.*
unfoldable pub use Finalizing.*
unfoldable pub use Reconciling.*
pub mod Rows
pub mod Charging
pub mod Found
pub mod Picks
pub mod Booking
pub mod Funds
pub mod Conservation
pub mod Compensation
pub mod Reversal
pub mod Sweep
