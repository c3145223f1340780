-- ===== src/Locks/Leader.antt =====
-- Two instances are never both the verified leader.
use mathlib.Core.Path.{subst}
use xelma_backend.Base.{
  ℕ, ◌≡◌, ◌≢◌, ◌+◌, ◌-◌, ◌≤◌, ◌<◌, ◌==◌, refl, sym, ap, ◌∙◌, Bool, true, false, Option, none, some,
  List, [], ◌∷◌, find, update, key-find, All, leb, if◌then◌else◌, arith, Bool-cases, inl, inr, not,
  ◌&&◌,
}
use xelma_backend.Locks.Redis.{RedisApi, RedisLaws}
use xelma_backend.Locks.Instance.{
  LockConfig, LockLostReason, Lock, lock_row, is_held, mark_lost, if_set, acquire_attempt,
  renew_answer, renew_script, release_answer, release_script, after_renewal, renew_reached, renew,
  renew_tick, after_confirmation, confirm_reached, confirm_still_held, release, max_hold_ms,
  renew_failed,
}
use xelma_backend.Locks.Replicas.{
  World, LockStep, run_call, lock_step, lock_steps, tries, beats, confirms, releases, waits,
}

find-replace_self :
    (id : ℕ) (y l : Lock) (ls : List Lock)
    → y.lock_id ≡ id
    → find id ls ≡ some l
    → find id (update id (λ x. y) ls) ≡ some y
find-replace_self id y l [] its e = cc
find-replace_self id y l (x ∷ ls) its e = ground (arith, find-replace_self id y l ls)

find-replace_ne :
    (k id : ℕ) (y : Lock) (ls : List Lock)
    → y.lock_id ≡ id
    → k ≢ id
    → find k (update id (λ x. y) ls) ≡ find k ls
find-replace_ne k id y [] its ne = refl
find-replace_ne k id y (x ∷ ls) its ne = ground (arith, find-replace_ne k id y ls)

module _ (redis : RedisApi) (laws : RedisLaws redis) (config : LockConfig) where
  open redis use {Store, get, set_nx_px, del, pexpire}

  -- The key has this value from now until the time `end`.
  abbrev pub Holds : (now : ℕ) → Store → (value end : ℕ) → Type 0
  Holds now s value end = (t : ℕ) → now ≤ t → t < end → get t s ≡ some value

  -- The key is ours for as long as Redis has promised when it last answered.
  abbrev pub Owns : (now : ℕ) → Lock → Store → Type 0
  Owns now l s = is_held l ≡ true → Holds now s l.lock_id (l.confirmed_at + config.ttl)

  -- A call is safe: it leaves the key to its owner, and to others what is theirs.
  record IsSafe (now : ℕ) (l : Lock) (s : Store) (p : Lock × Store) : Type 0 where
    same_id : p.0.lock_id ≡ l.lock_id
    own : Owns now p.0 p.1
    others : (value end : ℕ) → value ≢ l.lock_id → Holds now s value end → Holds now p.1 value end

  vacuous :
      (now : ℕ) (s s' : Store) (value end : ℕ)
      → get now s ≢ some value
      → Holds now s value end
      → Holds now s' value end
  vacuous now s s' value end free h t le lt = absurd (free (h now (omega arith) (omega arith)))

  unchanged :
      (now : ℕ) (l l' : Lock) (s : Store)
      → l'.lock_id ≡ l.lock_id
      → Owns now l' s
      → IsSafe now l s (l', s)
  unchanged now l l' s same own = record { same_id = same; own = own; others = λ v e ne h. h }

  not_held : (now : ℕ) (l : Lock) (s : Store) → is_held l ≡ false → Owns now l s
  not_held now l s e h = absurd (ground arith)

  mark_lost-lock_id : (r : LockLostReason) (l : Lock) → (mark_lost r l).lock_id ≡ l.lock_id
  mark_lost-lock_id r l = ground arith

  mark_lost-is_held : (r : LockLostReason) (l : Lock) → is_held (mark_lost r l) ≡ false
  mark_lost-is_held r l = ground arith

  lost-IsSafe :
      (now : ℕ) (r : LockLostReason) (l : Lock) (s : Store) → IsSafe now l s (mark_lost r l, s)
  lost-IsSafe now r l s =
      unchanged now l (mark_lost r l) s (mark_lost-lock_id r l)
        (not_held now (mark_lost r l) s (mark_lost-is_held r l))

  acquire_attempt-IsSafe :
      (now : ℕ) (l : Lock) (s : Store)
      → Owns now l s
      → IsSafe now l s (acquire_attempt redis config now l s)
  unfolding acquire_attempt
  acquire_attempt-IsSafe now l s own = by_reply (set_nx_px now l.lock_id config.ttl s) refl
    where
      by_reply :
          (p : Bool × Store)
          → set_nx_px now l.lock_id config.ttl s ≡ p
          → IsSafe now l s (if_set redis config now l p)
      by_reply (true, s') e = record {
        same_id = refl;
        own = λ held t le lt.
            ap (λ p. get t p.1) (sym e)
            ∙ laws.stays now l.lock_id config.ttl s t (ap (λ p. p.0) e) le lt;
        others = λ v end ne h.
            vacuous now s s' v end
              (λ q. let free = laws.was_free now l.lock_id config.ttl s (ap (λ p. p.0) e) in cc) h;
      }
      by_reply (false, s') e =
          let same : s ≡ s' =
            sym (laws.refused now l.lock_id config.ttl s (ap (λ p. p.0) e)) ∙ ap (λ p. p.1) e in
          subst (λ x. IsSafe now l s (l, x)) same (unchanged now l l s refl own)

  -- What RENEW_SCRIPT does, by what it answers.
  renewed-IsSafe :
      (now : ℕ) (l l' : Lock) (s : Store)
      → l'.lock_id ≡ l.lock_id
      → l'.confirmed_at ≡ now
      → get now s ≡ some l.lock_id
      → IsSafe now l s (l', pexpire now config.ttl s)
  renewed-IsSafe now l l' s same at_now ours = record {
    same_id = same;
    own = λ held t le lt.
        laws.extended now config.ttl s l'.lock_id t (ours ∙ ap some (sym same)) le (ground arith);
    others =
        λ v end ne h. vacuous now s (pexpire now config.ttl s) v end (λ q. ne (ground arith)) h;
  }

  -- A call that asks the script: what it makes of the two answers is safe.
  asks-IsSafe :
      (now : ℕ) (l yes_lock : Lock) (s : Store)
      → yes_lock.lock_id ≡ l.lock_id
      → yes_lock.confirmed_at ≡ now
      → (k : Option LockLostReason × Store → Lock × Store)
      → ((s' : Store) → k (none, s') ≡ (yes_lock, s'))
      → ((r : LockLostReason) (s' : Store) → k (some r, s') ≡ (mark_lost r l, s'))
      → IsSafe now l s (k (renew_script redis config now l.lock_id s))
  unfolding renew_script
  asks-IsSafe now l l' s same at_now k good bad = by_owner (get now s) refl
    where
      by_owner :
          (o : Option ℕ)
          → get now s ≡ o
          → IsSafe now l s (k (renew_answer redis config now l.lock_id o s))
      by_owner none e =
          subst (IsSafe now l s) (sym (bad LockLostReason.expired s))
            (lost-IsSafe now LockLostReason.expired l s)
      by_owner (some owner) e = elim (Bool-cases (owner == l.lock_id)) [
        | inl ours ↦
            let its : owner ≡ l.lock_id = ground arith in
            let answer : renew_answer redis config now l.lock_id (some owner) s
                ≡ (none, pexpire now config.ttl s) =
              rw (ours, renew_answer) refl in
            subst (IsSafe now l s) (sym (ap k answer ∙ good (pexpire now config.ttl s)))
              (renewed-IsSafe now l l' s same at_now (e ∙ ap some its))
        | inr theirs ↦
            let answer : renew_answer redis config now l.lock_id (some owner) s
                ≡ (some LockLostReason.stolen, s) =
              rw (theirs, renew_answer) refl in
            subst (IsSafe now l s) (sym (ap k answer ∙ bad LockLostReason.stolen s))
              (lost-IsSafe now LockLostReason.stolen l s)
      ]

  if-IsSafe :
      (now : ℕ) (l : Lock) (s : Store) (b : Bool) (p q : Lock × Store)
      → (b ≡ true → IsSafe now l s p)
      → (b ≡ false → IsSafe now l s q)
      → IsSafe now l s (if b then p else q)
  if-IsSafe now l s true p q h k = h refl
  if-IsSafe now l s false p q h k = k refl

  renew_failed-Owns :
      (now : ℕ) (l : Lock) (s : Store) → Owns now l s → Owns now (renew_failed redis config l) s
  renew_failed-Owns now l s own =
      by_count (leb config.max_renew_failures counted.consecutive_renew_failures)
    where
      counted : Lock
      counted = record l { consecutive_renew_failures = l.consecutive_renew_failures + 1 }

      by_count :
          (b : Bool)
          → Owns now (if b then mark_lost LockLostReason.redis_error counted else counted) s
      by_count true =
          not_held now (mark_lost LockLostReason.redis_error counted) s
            (mark_lost-is_held LockLostReason.redis_error counted)
      by_count false = own

  renew_failed-lock_id : (l : Lock) → (renew_failed redis config l).lock_id ≡ l.lock_id
  renew_failed-lock_id l = ground arith

  renew_reached-IsSafe :
      (reachable : Bool) (now : ℕ) (l : Lock) (s : Store)
      → Owns now l s
      → IsSafe now l s (renew_reached redis config reachable now l s)
  renew_reached-IsSafe false now l s own =
      unchanged now l (renew_failed redis config l) s (renew_failed-lock_id l)
        (renew_failed-Owns now l s own)
  renew_reached-IsSafe true now l s own =
      asks-IsSafe now l (record l { consecutive_renew_failures = 0; confirmed_at = now }) s refl
        refl (after_renewal redis config now l) (λ s'. refl) (λ r s'. refl)

  renew_tick-IsSafe :
      (reachable : Bool) (now : ℕ) (l : Lock) (s : Store)
      → Owns now l s
      → IsSafe now l s (renew_tick redis config reachable now l s)
  unfolding renew_tick
  renew_tick-IsSafe reachable now l s own =
      if-IsSafe now l s (is_held l) (renew redis config reachable now l s) (l, s)
        (λ e.
          if-IsSafe now l s (leb (max_hold_ms config) (now - l.acquired_at))
            (mark_lost LockLostReason.max_hold_exceeded l, s)
            (renew_reached redis config reachable now l s)
            (λ f. lost-IsSafe now LockLostReason.max_hold_exceeded l s)
            (λ f. renew_reached-IsSafe reachable now l s own))
        (λ e. unchanged now l l s refl own)

  confirm_still_held-IsSafe :
      (reachable : Bool) (now : ℕ) (l : Lock) (s : Store)
      → Owns now l s
      → IsSafe now l s (confirm_still_held redis config reachable now l s).1
  unfolding confirm_still_held
  confirm_still_held-IsSafe reachable now l s own = by_mode l.degraded (is_held l)
    where
      kept : IsSafe now l s (l, s)
      kept = unchanged now l l s refl own

      by_answer : (r : Bool) → IsSafe now l s (confirm_reached redis config r now l s).1
      by_answer false = kept
      by_answer true =
          asks-IsSafe now l (record l { confirmed_at = now }) s refl refl
            (λ p. (after_confirmation redis config now l p).1) (λ s'. refl) (λ r s'. refl)

      by_mode :
          (d h : Bool)
          → IsSafe now l s
              (if◌then◌else◌ {A = Bool × (Lock × Store)} d
                (l.held, (l, s))
                (if h then confirm_reached redis config reachable now l s else (false, (l, s)))).1
      by_mode true h = kept
      by_mode false true = by_answer reachable
      by_mode false false = kept

  free_after_release :
      (now : ℕ) (l : Lock) (s : Store) (value end : ℕ)
      → value ≢ l.lock_id
      → Holds now s value end
      → Holds now (release_script redis config now l.lock_id s) value end
  unfolding release_script
  free_after_release now l s value end ne h = by_owner (get now s) refl
    where
      by_owner :
          (o : Option ℕ)
          → get now s ≡ o
          → Holds now (release_answer redis config now l.lock_id o s) value end
      by_owner none e = h
      by_owner (some owner) e = elim (Bool-cases (owner == l.lock_id)) [
        | inl ours ↦ vacuous now s _ value end (λ q. ne (ground arith)) h
        | inr theirs ↦
            let same : release_answer redis config now l.lock_id (some owner) s ≡ s =
              rw (theirs, release_answer) refl in
            subst (λ x. Holds now x value end) (sym same) h
      ]

  release-IsSafe :
      (reachable : Bool) (now : ℕ) (l : Lock) (s : Store)
      → IsSafe now l s (release redis config reachable now l s)
  unfolding release
  release-IsSafe reachable now l s = by_cases l.ever_acquired (not l.degraded && reachable)
    where
      gone : Lock
      gone = record l { held = false; ever_acquired = false }

      by_key :
          (b : Bool)
          → IsSafe now l s (gone, if b then release_script redis config now l.lock_id s else s)
      by_key true = record {
        same_id = refl;
        own = not_held now gone (release_script redis config now l.lock_id s) refl;
        others = free_after_release now l s;
      }
      by_key false = unchanged now l gone s refl (not_held now gone s refl)

      by_cases :
          (b c : Bool)
          → IsSafe now l s (
              if b
              then (gone, if c then release_script redis config now l.lock_id s else s)
              else (record l { held = false }, s))
      by_cases true c = by_key c
      by_cases false c =
          unchanged now l (record l { held = false }) s refl
            (not_held now (record l { held = false }) s refl)

  -- Every verified leader owns the key.
  abbrev pub IsLed : World redis config → Type 0
  IsLed w = (id : ℕ) (l : Lock) → find id w.locks ≡ some l → Owns w.now l w.store

  run_call-IsLed :
      (id : ℕ) (call : Lock → Store → Lock × Store) (w : World redis config)
      → ((l : Lock) (s : Store) → Owns w.now l s → IsSafe w.now l s (call l s))
      → IsLed w
      → IsLed (run_call redis config id call w)
  run_call-IsLed id call w safe led = by_row (find id w.locks) refl
    where
      by_row :
          (o : Option Lock)
          → find id w.locks ≡ o
          → IsLed (elim o as (λ x. World redis config) [
            | none ↦ w
            | some l ↦ record w {
              store = (call l w.store).1;
              locks = update id (λ x. (call l w.store).0) w.locks;
            }
          ])
      by_row none e = led
      by_row (some l) e = λ k m there.
          let done = safe l w.store (led id l e) in
          let its : l.lock_id ≡ id = key-find id l w.locks e in
          let y = (call l w.store).0 in
          elim (Bool-cases (k == id)) [
            | inl same ↦
                let here : k ≡ id = ground arith in
                let is : y ≡ m = cc (
                  find-replace_self id y l w.locks (done.same_id ∙ its) e,
                  ap (λ j. find j (update id (λ x. y) w.locks)) here,
                ) in
                subst (λ x. Owns w.now x (call l w.store).1) is done.own
            | inr differs ↦
                let ne : k ≢ id = λ q. ground arith in
                let before : find k w.locks ≡ some m =
                  sym (find-replace_ne k id y w.locks (done.same_id ∙ its) ne) ∙ there in
                let key : m.lock_id ≡ k = key-find k m w.locks before in
                λ held.
                  done.others m.lock_id (m.confirmed_at + config.ttl)
                    (λ q. ne (sym key ∙ (q ∙ its))) (led k m before held)
          ]

  lock_step-IsLed :
      (x : LockStep redis config) (w : World redis config)
      → IsLed w
      → IsLed (lock_step redis config x w)
  unfolding lock_step
  lock_step-IsLed (tries id) w led =
      run_call-IsLed id (acquire_attempt redis config w.now) w (acquire_attempt-IsSafe w.now) led
  lock_step-IsLed (beats id reachable) w led =
      run_call-IsLed id (renew_tick redis config reachable w.now) w
        (renew_tick-IsSafe reachable w.now) led
  lock_step-IsLed (confirms id reachable) w led =
      run_call-IsLed id (λ l s. (confirm_still_held redis config reachable w.now l s).1) w
        (confirm_still_held-IsSafe reachable w.now) led
  lock_step-IsLed (releases id reachable) w led =
      run_call-IsLed id (release redis config reachable w.now) w
        (λ l s own. release-IsSafe reachable w.now l s) led
  lock_step-IsLed (waits ms) w led = λ k m there held t le lt. led k m there held t (omega arith) lt

  lock_steps-IsLed :
      (xs : List (LockStep redis config)) (w : World redis config)
      → IsLed w
      → IsLed (lock_steps redis config xs w)
  unfolding lock_steps
  lock_steps-IsLed [] w led = led
  lock_steps-IsLed (x ∷ xs) w led =
      lock_steps-IsLed xs (lock_step redis config x w) (lock_step-IsLed x w led)

  idle-IsLed : (w : World redis config) → All (λ l. l.held ≡ false) w.locks → IsLed w
  idle-IsLed w idle k m there held = absurd (go w.locks idle there)
    where
      go : (ls : List Lock) → All (λ l. l.held ≡ false) ls → find k ls ≡ some m → ⊥
      go [] h e = cc
      go (x ∷ ls) h e = elim (Bool-cases (x.lock_id == k)) [
        | inl here ↦ ground (arith, h.0)
        | inr other ↦ go ls h.1 (ground arith)
      ]

  -- At most one leader: start any number of instances that do not hold the lock, and let them try,
  -- renew, confirm and release in any order, at any times and with Redis reachable or not. If two
  -- instances then believe that they hold the lock, and Redis has told each of them so less than a
  -- TTL ago, they are the same instance. Redis has its documented behaviour and commands take no
  -- time.
  pub one_leader :
      (xs : List (LockStep redis config)) (w : World redis config)
      → All (λ l. l.held ≡ false) w.locks
      → (a b : ℕ) (k m : Lock) → find a (lock_steps redis config xs w).locks ≡ some k
      → find b (lock_steps redis config xs w).locks ≡ some m
      → is_held k ≡ true
      → is_held m ≡ true
      → (lock_steps redis config xs w).now < k.confirmed_at + config.ttl
      → (lock_steps redis config xs w).now < m.confirmed_at + config.ttl
      → a ≡ b
  one_leader xs w idle a b k m at_a at_b held_k held_m fresh_k fresh_m =
      let led = lock_steps-IsLed xs w (idle-IsLed w idle) in
      let end = lock_steps redis config xs w in
      let owner_k = led a k at_a held_k end.now (omega arith) fresh_k in
      let owner_m = led b m at_b held_m end.now (omega arith) fresh_m in
      let same : k.lock_id ≡ m.lock_id = cc in
      sym (key-find a k end.locks at_a) ∙ (same ∙ key-find b m end.locks at_b)
