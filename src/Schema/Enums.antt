-- ===== src/Schema/Enums.antt =====
-- The enums of prisma/schema.prisma and of src/types/round.types.ts.
use xelma_backend.Base.{Bool, true, false, ◌≡◌, ◌↔◌, arith}

pub data GameMode : Type 0 where
  up_down legends : GameMode

pub data RoundStatus : Type 0 where
  pending active locked resolved cancelled : RoundStatus

pub data Side : Type 0 where
  up down : Side

pub data ChainStatus : Type 0 where
  pending submitted confirmed failed not_required needs_manual_review : ChainStatus

pub data BetStatus : Type 0 where
  accepted submitted confirmed resolved failed : BetStatus

pub data BetMode : Type 0 where
  up_down precision : BetMode

pub data EventStatus : Type 0 where
  pending processing processed failed : EventStatus

pub data NotificationKind : Type 0 where
  win loss : NotificationKind

-- `===` on the literals
abbrev pub mode_eq : GameMode → GameMode → Bool
mode_eq GameMode.up_down GameMode.up_down = true
mode_eq GameMode.legends GameMode.legends = true
mode_eq _ _ = false

abbrev pub side_eq : Side → Side → Bool
side_eq Side.up Side.up = true
side_eq Side.down Side.down = true
side_eq _ _ = false

abbrev pub status_eq : RoundStatus → RoundStatus → Bool
status_eq RoundStatus.pending RoundStatus.pending = true
status_eq RoundStatus.active RoundStatus.active = true
status_eq RoundStatus.locked RoundStatus.locked = true
status_eq RoundStatus.resolved RoundStatus.resolved = true
status_eq RoundStatus.cancelled RoundStatus.cancelled = true
status_eq _ _ = false

abbrev pub chain_eq : ChainStatus → ChainStatus → Bool
chain_eq ChainStatus.pending ChainStatus.pending = true
chain_eq ChainStatus.submitted ChainStatus.submitted = true
chain_eq ChainStatus.confirmed ChainStatus.confirmed = true
chain_eq ChainStatus.failed ChainStatus.failed = true
chain_eq ChainStatus.not_required ChainStatus.not_required = true
chain_eq ChainStatus.needs_manual_review ChainStatus.needs_manual_review = true
chain_eq _ _ = false

abbrev pub bet_status_eq : BetStatus → BetStatus → Bool
bet_status_eq BetStatus.accepted BetStatus.accepted = true
bet_status_eq BetStatus.submitted BetStatus.submitted = true
bet_status_eq BetStatus.confirmed BetStatus.confirmed = true
bet_status_eq BetStatus.resolved BetStatus.resolved = true
bet_status_eq BetStatus.failed BetStatus.failed = true
bet_status_eq _ _ = false

pub status_eq_iff : (a b : RoundStatus) → (status_eq a b ≡ true) ↔ (a ≡ b)
status_eq_iff a b = ground arith
