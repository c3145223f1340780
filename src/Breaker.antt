-- ===== src/Breaker.antt =====
-- The circuit breaker in front of the chain client: src/utils/circuit-breaker.ts.
mod Machine
pub mod Runs
unfoldable pub use Machine.*
