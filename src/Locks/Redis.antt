-- ===== src/Locks/Redis.antt =====
-- Redis as the lock uses it, on the one key of a lock: a parameter, with the documented behaviour of
-- its commands as laws. `expiring` is a store that has these laws.
use xelma_backend.Base.{
  ℕ, ◌≡◌, ◌≤◌, ◌<◌, ◌+◌, Bool, true, false, Option, none, some, ltb, if◌then◌else◌, arith, inl, inr,
  Option-cases,
}

-- Each command takes the time at which Redis runs it.
pub record RedisApi : Type 1 where
  pub Store : Type 0
  pub get : (now : ℕ) → Store → Option ℕ
  pub set_nx_px : (now value ttl : ℕ) → Store → Bool × Store
  pub del : (now : ℕ) → Store → Store
  pub pexpire : (now ttl : ℕ) → Store → Store

pub record RedisLaws (redis : RedisApi) : Type 0 where
  -- NX: a key that is there refuses the write.
  pub refused :
      (now value ttl : ℕ) (s : redis.Store)
      → (redis.set_nx_px now value ttl s).0 ≡ false
      → (redis.set_nx_px now value ttl s).1 ≡ s
  pub was_free :
      (now value ttl : ℕ) (s : redis.Store)
      → (redis.set_nx_px now value ttl s).0 ≡ true
      → redis.get now s ≡ none
  -- PX: the value stays for the time that was given.
  pub stays :
      (now value ttl : ℕ) (s : redis.Store) (t : ℕ)
      → (redis.set_nx_px now value ttl s).0 ≡ true
      → now ≤ t
      → t < now + ttl
      → redis.get t (redis.set_nx_px now value ttl s).1 ≡ some value
  pub extended :
      (now ttl : ℕ) (s : redis.Store) (value t : ℕ)
      → redis.get now s ≡ some value
      → now ≤ t
      → t < now + ttl
      → redis.get t (redis.pexpire now ttl s) ≡ some value

-- A value with the time at which it expires.
pub data Entry : Type 0 where
  absent : Entry
  until : (value expires : ℕ) → Entry

abbrev get_entry : (now : ℕ) → Entry → Option ℕ
get_entry now absent = none
get_entry now (until value expires) = if ltb now expires then some value else none

abbrev set_entry : Option ℕ → (now value ttl : ℕ) → Entry → Bool × Entry
set_entry none now value ttl e = (true, until value (now + ttl))
set_entry (some v) now value ttl e = (false, e)

abbrev extend_entry : Option ℕ → (now ttl : ℕ) → Entry
extend_entry none now ttl = absent
extend_entry (some v) now ttl = until v (now + ttl)

abbrev pub expiring : RedisApi
expiring = record {
  Store = Entry;
  get = get_entry;
  set_nx_px = λ now value ttl e. set_entry (get_entry now e) now value ttl e;
  del = λ now e. absent;
  pexpire = λ now ttl e. extend_entry (get_entry now e) now ttl;
}

pub expiring-RedisLaws : RedisLaws expiring
expiring-RedisLaws = record {
  refused = λ now value ttl e h. elim (Option-cases (get_entry now e)) [
    | inl gone ↦ absurd (ground arith)
    | inr (v, there) ↦ ground arith
  ];
  was_free = λ now value ttl e h. elim (Option-cases (get_entry now e)) [
    | inl gone ↦ gone
    | inr (v, there) ↦ absurd (ground arith)
  ];
  stays = λ now value ttl e t h le lt. elim (Option-cases (get_entry now e)) [
    | inl gone ↦ ground arith
    | inr (v, there) ↦ absurd (ground arith)
  ];
  extended = λ now ttl e value t h le lt. ground arith;
}
