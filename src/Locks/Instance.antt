-- ===== src/Locks/Instance.antt =====
-- One `DistributedLock`: its fields, and its calls on the key. Timers fire in the steps of Replicas;
-- commands take no time. Times are milliseconds.
use xelma_backend.Base.{
  ℕ, ◌+◌, ◌-◌, ◌*◌, ◌/◌, Bool, true, false, ◌&&◌, ◌||◌, not, Option, none, some, ◌==◌, leb, min,
  max, if◌then◌else◌, Row, is_some,
}
use xelma_backend.Locks.Redis.{RedisApi}

pub data LockLostReason : Type 0 where
  stolen expired redis_error max_hold_exceeded : LockLostReason

pub record LockConfig : Type 0 where
  pub ttl : ℕ
  pub renew_interval : Option ℕ
  pub max_renew_failures : ℕ
  pub max_hold : Option ℕ

-- `confirmed_at` is not a field of the class: it is when Redis last said that the key is ours.
pub record Lock : Type 0 where
  pub lock_id : ℕ
  pub held : Bool
  pub lost : Option LockLostReason
  pub acquired_at : ℕ
  pub ever_acquired : Bool
  pub consecutive_renew_failures : ℕ
  pub degraded : Bool
  pub confirmed_at : ℕ

instance abbrev pub lock_row : Row Lock
lock_row = record { key = λ l. l.lock_id }

abbrev or_else : Option ℕ → ℕ → ℕ
or_else none d = d
or_else (some n) d = n

-- `renewIntervalMs`
unfoldable pub renew_interval_ms : LockConfig → ℕ
renew_interval_ms c = max 100 (min (or_else c.renew_interval (c.ttl / 3)) (c.ttl / 2))

-- `maxHoldMs`
unfoldable pub max_hold_ms : LockConfig → ℕ
max_hold_ms c = max 100 (or_else c.max_hold (c.ttl * 20))

-- `isHeld` of the handle; `assertHeld` throws unless it holds.
abbrev pub is_held : Lock → Bool
is_held l = l.held && not (is_some l.lost)

-- `markAcquired`
abbrev pub mark_acquired : (now : ℕ) → Lock → Lock
mark_acquired now l = record l {
  held = true;
  ever_acquired = true;
  lost = none;
  acquired_at = now;
  consecutive_renew_failures = 0;
  confirmed_at = now;
}

-- `markLost`
abbrev pub mark_lost : LockLostReason → Lock → Lock
mark_lost reason l = elim l.lost [
  | some r ↦ l
  | none ↦ record l { lost = some reason; held = false }
]

-- `acquireWithoutRedis`, with whether it ran without the distributed lock.
unfoldable pub acquire_without_redis :
    (now : ℕ) (redis_configured lock_required : Bool) → Lock → Bool × Lock
acquire_without_redis now redis_configured lock_required l =
    if redis_configured || lock_required
    then (false, l)
    else (true, mark_acquired now (record l { degraded = true }))

module _ (redis : RedisApi) (config : LockConfig) where
  open redis use {Store, get, set_nx_px, del, pexpire}
  open config use {ttl, max_renew_failures}

  abbrev pub if_set : (now : ℕ) → Lock → Bool × Store → Lock × Store
  if_set now l (true, s) = (mark_acquired now l, s)
  if_set now l (false, s) = (l, s)

  -- One attempt of `acquire`, by a process that runs no other job of this name.
  unfoldable pub acquire_attempt : (now : ℕ) → Lock → Store → Lock × Store
  acquire_attempt now l s = if_set now l (set_nx_px now l.lock_id ttl s)

  -- RENEW_SCRIPT, its return codes as reasons.
  abbrev pub renew_answer : (now lock_id : ℕ) → Option ℕ → Store → Option LockLostReason × Store
  renew_answer now lock_id none s = (some LockLostReason.expired, s)
  renew_answer now lock_id (some owner) s =
      if owner == lock_id then (none, pexpire now ttl s) else (some LockLostReason.stolen, s)

  unfoldable pub renew_script : (now lock_id : ℕ) → Store → Option LockLostReason × Store
  renew_script now lock_id s = renew_answer now lock_id (get now s) s

  -- RELEASE_SCRIPT
  abbrev pub release_answer : (now lock_id : ℕ) → Option ℕ → Store → Store
  release_answer now lock_id none s = s
  release_answer now lock_id (some owner) s = if owner == lock_id then del now s else s

  unfoldable pub release_script : (now lock_id : ℕ) → Store → Store
  release_script now lock_id s = release_answer now lock_id (get now s) s

  abbrev pub renew_failed : Lock → Lock
  renew_failed l =
      let counted : Lock = record l {
        consecutive_renew_failures = l.consecutive_renew_failures + 1;
      } in
      if leb max_renew_failures counted.consecutive_renew_failures
      then mark_lost LockLostReason.redis_error counted
      else counted

  abbrev pub after_renewal : (now : ℕ) → Lock → Option LockLostReason × Store → Lock × Store
  after_renewal now l (none, s) =
      (record l { consecutive_renew_failures = 0; confirmed_at = now }, s)
  after_renewal now l (some reason, s) = (mark_lost reason l, s)

  abbrev pub renew_reached : (reachable : Bool) (now : ℕ) → Lock → Store → Lock × Store
  renew_reached false now l s = (renew_failed l, s)
  renew_reached true now l s = after_renewal now l (renew_script now l.lock_id s)

  -- `renew`
  abbrev pub renew : (reachable : Bool) (now : ℕ) → Lock → Store → Lock × Store
  renew reachable now l s =
      if leb (max_hold_ms config) (now - l.acquired_at)
      then (mark_lost LockLostReason.max_hold_exceeded l, s)
      else renew_reached reachable now l s

  -- `renewTick`
  unfoldable pub renew_tick : (reachable : Bool) (now : ℕ) → Lock → Store → Lock × Store
  renew_tick reachable now l s = if is_held l then renew reachable now l s else (l, s)

  abbrev pub after_confirmation :
      (now : ℕ) → Lock → Option LockLostReason × Store → Bool × (Lock × Store)
  after_confirmation now l (none, s) = (true, (record l { confirmed_at = now }, s))
  after_confirmation now l (some reason, s) = (false, (mark_lost reason l, s))

  abbrev pub confirm_reached : (reachable : Bool) (now : ℕ) → Lock → Store → Bool × (Lock × Store)
  confirm_reached false now l s = (false, (l, s))
  confirm_reached true now l s = after_confirmation now l (renew_script now l.lock_id s)

  -- `confirmStillHeld`
  unfoldable pub confirm_still_held :
      (reachable : Bool) (now : ℕ) → Lock → Store → Bool × (Lock × Store)
  confirm_still_held reachable now l s =
      if l.degraded
      then (l.held, (l, s))
      else if is_held l
      then confirm_reached reachable now l s
      else (false, (l, s))

  abbrev let_go : Lock → Lock
  let_go l = record l { held = false; ever_acquired = false }

  -- `release`
  unfoldable pub release : (reachable : Bool) (now : ℕ) → Lock → Store → Lock × Store
  release reachable now l s =
      if l.ever_acquired
      then (let_go l, if not l.degraded && reachable then release_script now l.lock_id s else s)
      else (record l { held = false }, s)
