-- ===== src/Locks/Replicas.antt =====
-- Any number of instances that go for one lock, and the time that passes.
use xelma_backend.Base.{ℕ, ◌+◌, Bool, none, some, List, [], ◌∷◌, find, update}
use xelma_backend.Locks.Redis.{RedisApi}
use xelma_backend.Locks.Instance.{
  LockConfig, Lock, lock_row, acquire_attempt, renew_tick, confirm_still_held, release,
}

module _ (redis : RedisApi) (config : LockConfig) where
  pub record World : Type 0 where
    pub now : ℕ
    pub store : redis.Store
    pub locks : List Lock

  -- What happens: one object tries, beats, confirms or releases, and Redis is reachable or not.
  pub data LockStep : Type 0 where
    tries : (id : ℕ) → LockStep
    beats confirms releases : (id : ℕ) (reachable : Bool) → LockStep
    waits : (ms : ℕ) → LockStep

  abbrev pub run_call : (id : ℕ) → (Lock → redis.Store → Lock × redis.Store) → World → World
  run_call id call w = elim (find id w.locks) [
    | none ↦ w
    | some l ↦ record w {
      store = (call l w.store).1;
      locks = update id (λ x. (call l w.store).0) w.locks;
    }
  ]

  unfoldable pub lock_step : LockStep → World → World
  lock_step (tries id) w = run_call id (acquire_attempt redis config w.now) w
  lock_step (beats id reachable) w = run_call id (renew_tick redis config reachable w.now) w
  lock_step (confirms id reachable) w =
      run_call id (λ l s. (confirm_still_held redis config reachable w.now l s).1) w
  lock_step (releases id reachable) w = run_call id (release redis config reachable w.now) w
  lock_step (waits ms) w = record w { now = w.now + ms }

  unfoldable pub lock_steps : List LockStep → World → World
  lock_steps [] w = w
  lock_steps (x ∷ xs) w = lock_steps xs (lock_step x w)
