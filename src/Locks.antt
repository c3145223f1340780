-- ===== src/Locks.antt =====
-- Leadership of the scheduled jobs: src/utils/distributed-lock.ts.
mod Redis
mod Instance
mod Replicas
pub mod Leader
unfoldable pub use Redis.*
unfoldable pub use Instance.*
unfoldable pub use Replicas.*
