-- ===== src/Retry.antt =====
-- Retries with back-off: src/utils/retry.util.ts.
mod Loop
pub mod Limits
unfoldable pub use Loop.*
