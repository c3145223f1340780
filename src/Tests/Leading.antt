-- ===== src/Tests/Leading.antt =====
-- Two instances go for one lock.
use xelma_backend.Base.{ℕ, ◌≡◌, refl, true, false, none, some, List, [], ◌∷◌, find, arith}
use xelma_backend.Locks.{
  expiring, expiring-RedisLaws, absent, LockConfig, Lock, lock_row, World, LockStep, tries, beats,
  waits, lock_steps, lock_step, acquire_attempt, renew_tick, renew_script, max_hold_ms,
}
use xelma_backend.Locks.Leader.{one_leader}

abbrev a_lock_config : LockConfig
a_lock_config = record {
  ttl = 30000;
  renew_interval = none;
  max_renew_failures = 2;
  max_hold = none;
}

abbrev idle_lock : (id : ℕ) → Lock
idle_lock id = record {
  lock_id = id;
  held = false;
  lost = none;
  acquired_at = 0;
  ever_acquired = false;
  consecutive_renew_failures = 0;
  degraded = false;
  confirmed_at = 0;
}

abbrev a_world : World expiring a_lock_config
a_world = record { now = 5; store = absent; locks = idle_lock 1 ∷ idle_lock 2 ∷ [] }

abbrev a_contest : List (LockStep expiring a_lock_config)
a_contest = tries 1 ∷ tries 2 ∷ waits 10000 ∷ beats 1 true ∷ tries 2 ∷ waits 1000 ∷ []

abbrev after_contest : World expiring a_lock_config
after_contest = lock_steps expiring a_lock_config a_contest a_world

abbrev leader : Lock
leader = record (idle_lock 1) {
  held = true;
  acquired_at = 5;
  ever_acquired = true;
  confirmed_at = 10005;
}

the_leader : find 1 after_contest.locks ≡ some leader
unfolding lock_steps lock_step acquire_attempt renew_tick renew_script max_hold_ms
the_leader = refl

the_time : after_contest.now ≡ 11005
unfolding lock_steps lock_step acquire_attempt renew_tick renew_script max_hold_ms
the_time = refl

one_leader_example : ◌≡◌ {A = ℕ} 1 1
one_leader_example =
    one_leader expiring expiring-RedisLaws a_lock_config a_contest a_world (refl, (refl, tt)) 1 1
      leader leader the_leader the_leader refl refl (omega (arith, the_time))
      (omega (arith, the_time))
