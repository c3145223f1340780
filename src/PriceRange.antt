-- ===== src/PriceRange.antt =====
-- Price ranges of LEGENDS rounds: src/types/round.types.ts (type guards) and
-- src/utils/price-range.util.ts. A JSON number is a number of units of 10^-8.
mod Ranges
pub mod Winning
pub mod Pools
unfoldable pub use Ranges.*
