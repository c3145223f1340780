-- ===== src/Lifecycle/Graph.antt =====
-- The lifecycle as a relation, drawn from the comment above ROUND_LIFECYCLE_TRANSITIONS in
-- src/types/round.types.ts, with the edge ACTIVE -> CANCELLED that only the table has, and what it
-- allows.
use xelma_backend.Base.{true, ◌≡◌, ◌↔◌, refl, arith}
use xelma_backend.Schema.{RoundStatus}
use xelma_backend.Lifecycle.Engine.{is_legal_round_transition}

-- The persisted edges of the graph.
infix 40 ◌⟶◌ ◌⟶*◌
pub data ◌⟶◌ : RoundStatus → RoundStatus → Type 0 where
  opens : RoundStatus.pending ⟶ RoundStatus.active
  locks : RoundStatus.active ⟶ RoundStatus.locked
  settles : RoundStatus.locked ⟶ RoundStatus.resolved
  vetoes_open : RoundStatus.active ⟶ RoundStatus.cancelled
  vetoes_locked : RoundStatus.locked ⟶ RoundStatus.cancelled

pub data ◌⟶*◌ : RoundStatus → RoundStatus → Type 0 where
  here : {s : RoundStatus} → s ⟶* s
  next : {s t u : RoundStatus} → s ⟶ t → t ⟶* u → s ⟶* u

pub ruleset edges = (opens, locks, settles, vetoes_open, vetoes_locked)

pub legal-⟶ : (s t : RoundStatus) → is_legal_round_transition s t ≡ true → s ⟶ t
unfolding is_legal_round_transition
legal-⟶ s t h = grind (arith, edges)

pub ⟶-legal : {s t : RoundStatus} → s ⟶ t → is_legal_round_transition s t ≡ true
unfolding is_legal_round_transition
⟶-legal opens = refl
⟶-legal locks = refl
⟶-legal settles = refl
⟶-legal vetoes_open = refl
⟶-legal vetoes_locked = refl

-- The table of the code allows a transition exactly if it is an edge of the graph: PENDING to
-- ACTIVE, ACTIVE to LOCKED, LOCKED to RESOLVED, and ACTIVE or LOCKED to CANCELLED.
pub legal_iff-⟶ : (s t : RoundStatus) → (is_legal_round_transition s t ≡ true) ↔ (s ⟶ t)
legal_iff-⟶ s t = (legal-⟶ s t, λ e. ⟶-legal e)

pub ⟶*_snoc : {s t u : RoundStatus} → s ⟶* t → t ⟶ u → s ⟶* u
⟶*_snoc here e = next e here
⟶*_snoc (next d p) e = next d (⟶*_snoc p e)

abbrev pub IsFinal : RoundStatus → Type 0
IsFinal RoundStatus.resolved = Unit
IsFinal RoundStatus.cancelled = Unit
IsFinal _ = ⊥

final_stuck : {s t : RoundStatus} → s ⟶ t → IsFinal s → ⊥
final_stuck opens f = f
final_stuck locks f = f
final_stuck settles f = f
final_stuck vetoes_open f = f
final_stuck vetoes_locked f = f

-- Nothing leaves a final status.
pub final_stays : {s t : RoundStatus} → s ⟶* t → IsFinal s → t ≡ s
final_stays here f = refl
final_stays (next e p) f = absurd (final_stuck e f)
