-- ===== src/Lifecycle.antt =====
-- The round lifecycle: src/types/round.types.ts (the transition graph) and
-- src/services/round-lifecycle.service.ts (the engine).
mod Engine
pub mod Graph
pub mod Safety
unfoldable pub use Engine.*
