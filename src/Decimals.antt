-- ===== src/Decimals.antt =====
-- src/utils/decimal.util.ts and src/utils/payout.util.ts over the decimal type of
-- @prisma/client/runtime/library (decimal.js), which is no code of this repository: it is the
-- parameter `DecimalApi`.
mod Api
pub mod Laws
pub mod Payout
pub mod FixedPoint
unfoldable pub use Api.*
