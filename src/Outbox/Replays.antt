-- ===== src/Outbox/Replays.antt =====
-- What a replay of the dead letters reports.
use xelma_backend.Base.{
  ℕ, zero, suc, ◌≡◌, ◌≤◌, ◌+◌, refl, ap, ◌∙◌, Bool, true, false, Option, none, some, String, List,
  [], ◌∷◌, find, find-update, All, is_some, length, length-take_le, filter, take, min, max,
  if◌then◌else◌, arith, Option-cases, inl, inr,
}
use xelma_backend.Outbox.Rows.{DispatchStatus, FailedDispatch, Mailbox, dead_row}
use xelma_backend.Outbox.DeadLetters.{
  RetryResult, RetrySummary, replayed, failed_again, replay, retry_row, retry, retry_each,
  count_result, summary_of, to_retry, retry_all, is_replayable, result_of,
}

abbrev IsThere : List FailedDispatch → FailedDispatch → Type 0
IsThere ds d = is_some (find d.id ds) ≡ true

module _ (now max_attempts : ℕ) (answer : FailedDispatch → Option String) where
  -- A replay keeps every row.
  replay_keeps :
      (a : Option String) (d : FailedDispatch) (m : Mailbox) (k : ℕ)
      → is_some (find k m.dead) ≡ true
      → is_some (find k (replay now max_attempts answer a d m).1.dead) ≡ true
  replay_keeps none d m k h = ground (arith, find-update k d.id (replayed now) m.dead (λ d. refl))
  replay_keeps (some error) d m k h =
      ground (arith, find-update k d.id (failed_again now max_attempts error) m.dead (λ d. refl))

  replay_reports :
      (a : Option String) (d : FailedDispatch) (m : Mailbox)
      → is_some (replay now max_attempts answer a d m).0 ≡ true
  replay_reports none d m = refl
  replay_reports (some error) d m = refl

  retry_row_lem :
      (d : FailedDispatch) (m : Mailbox) (k : ℕ)
      → is_some (find k m.dead) ≡ true
      → (is_some (retry_row now max_attempts answer d m).0 ≡ true)
        × (is_some (find k (retry_row now max_attempts answer d m).1.dead) ≡ true)
  retry_row_lem d m k h = by_status d.status
    where
      by_status :
          (s : DispatchStatus)
          → (is_some
                (elim s as (λ x. Option RetryResult × Mailbox) [
                  | DispatchStatus.resolved ↦ (some (result_of d), m)
                  | _ ↦ replay now max_attempts answer (answer d) d m
                ]).0
              ≡ true)
            × (is_some (
                  find k
                    (elim s as (λ x. Option RetryResult × Mailbox) [
                      | DispatchStatus.resolved ↦ (some (result_of d), m)
                      | _ ↦ replay now max_attempts answer (answer d) d m
                    ]).1.dead)
                ≡ true)
      by_status DispatchStatus.resolved = (refl, h)
      by_status DispatchStatus.pending =
          (replay_reports (answer d) d m, replay_keeps (answer d) d m k h)
      by_status DispatchStatus.retrying =
          (replay_reports (answer d) d m, replay_keeps (answer d) d m k h)
      by_status DispatchStatus.abandoned =
          (replay_reports (answer d) d m, replay_keeps (answer d) d m k h)

  retry_lem :
      (id : ℕ) (m : Mailbox) (k : ℕ)
      → is_some (find id m.dead) ≡ true
      → is_some (find k m.dead) ≡ true
      → (is_some (retry now max_attempts answer id m).0 ≡ true)
        × (is_some (find k (retry now max_attempts answer id m).1.dead) ≡ true)
  unfolding retry
  retry_lem id m k there h = elim (Option-cases (find id m.dead)) [
    | inl gone ↦ absurd (ground arith)
    | inr (d, e) ↦
        let goes : retry now max_attempts answer id m ≡ retry_row now max_attempts answer d m =
          rw (e, retry) refl in
        let done = retry_row_lem d m k h in
        (ap (λ p. is_some p.0) goes ∙ done.0, ap (λ p. is_some (find k p.1.dead)) goes ∙ done.1)
  ]

  still-IsThere :
      (id : ℕ) (m : Mailbox) (ds : List FailedDispatch)
      → is_some (find id m.dead) ≡ true
      → All (IsThere m.dead) ds
      → All (IsThere (retry now max_attempts answer id m).1.dead) ds
  still-IsThere id m [] there h = tt
  still-IsThere id m (d ∷ ds) there h =
      ((retry_lem id m d.id there h.0).1, still-IsThere id m ds there h.1)

  retry_each_reports :
      (ds : List FailedDispatch) (m : Mailbox)
      → All (IsThere m.dead) ds
      → All (λ r. is_some r ≡ true) (retry_each now max_attempts answer ds m).0
        × (length (retry_each now max_attempts answer ds m).0 ≡ length ds)
  unfolding retry_each
  retry_each_reports [] m h = (tt, refl)
  retry_each_reports (d ∷ ds) m h =
      let rest =
        retry_each_reports ds (retry now max_attempts answer d.id m).1
          (still-IsThere d.id m ds h.0 h.1) in
      (((retry_lem d.id m d.id h.0 h.0).0, rest.0), ap suc rest.1)

counted_one :
    (r : RetryResult) (s : RetrySummary) (n a : ℕ)
    → (s.resolved + s.failed ≡ n) × (s.abandoned ≤ s.failed) × (s.attempted ≡ a)
    → ((count_result (some r) s).resolved + (count_result (some r) s).failed ≡ suc n)
      × ((count_result (some r) s).abandoned ≤ (count_result (some r) s).failed)
      × ((count_result (some r) s).attempted ≡ a)
counted_one r s n a h = ground (arith, h)

take-IsThere :
    (n : ℕ) (all ds : List FailedDispatch) → All (IsThere all) ds → All (IsThere all) (take n ds)
take-IsThere zero all ds h = tt
take-IsThere (suc n) all [] h = tt
take-IsThere (suc n) all (d ∷ ds) h = (h.0, take-IsThere n all ds h.1)

IsThere-below :
    (x : FailedDispatch) (all ds : List FailedDispatch)
    → All (IsThere all) ds
    → All (IsThere (x ∷ all)) ds
IsThere-below x all [] h = tt
IsThere-below x all (d ∷ ds) h = (ground (arith, h.0), IsThere-below x all ds h.1)

IsThere-in : (ds : List FailedDispatch) → All (IsThere ds) (filter is_replayable ds)
IsThere-in [] = tt
IsThere-in (x ∷ ds) =
    by_status (is_replayable x) (IsThere-below x ds (filter is_replayable ds) (IsThere-in ds))
  where
    by_status :
        (b : Bool)
        → All (IsThere (x ∷ ds)) (filter is_replayable ds)
        → All
            (IsThere (x ∷ ds))
            (if b then x ∷ filter is_replayable ds else filter is_replayable ds)
    by_status true h = (ground arith, h)
    by_status false h = h

summary_adds_up :
    (n : ℕ) (rs : List (Option RetryResult))
    → All (λ r. is_some r ≡ true) rs
    → ((summary_of n rs).resolved + (summary_of n rs).failed ≡ length rs)
      × ((summary_of n rs).abandoned ≤ (summary_of n rs).failed)
      × ((summary_of n rs).attempted ≡ n)
summary_adds_up n [] h = (omega arith, omega arith, refl)
summary_adds_up n (none ∷ rs) h = absurd (ground (arith, h.0))
summary_adds_up n (some r ∷ rs) h =
    counted_one r (summary_of n rs) (length rs) n (summary_adds_up n rs h.1)

-- The counts of a replay of dead letters add up, and it replays at most 200: every row that it
-- attempts is reported as resolved or failed, and the abandoned ones are among the failed.
pub retry_all_adds_up :
    (now limit max_attempts : ℕ) (answer : FailedDispatch → Option String) (m : Mailbox)
    → ((retry_all now limit max_attempts answer m).0.resolved
          + (retry_all now limit max_attempts answer m).0.failed
        ≡ (retry_all now limit max_attempts answer m).0.attempted)
      × ((retry_all now limit max_attempts answer m).0.abandoned
          ≤ (retry_all now limit max_attempts answer m).0.failed)
      × ((retry_all now limit max_attempts answer m).0.attempted ≤ 200)
unfolding retry_all
retry_all_adds_up now limit max_attempts answer m =
    let ds = to_retry limit m.dead in
    let (all, same) = retry_each_reports now max_attempts answer ds m (
      take-IsThere (min (max limit 1) 200) m.dead (filter is_replayable m.dead)
        (IsThere-in m.dead)) in
    let sums = summary_adds_up (length ds) (retry_each now max_attempts answer ds m).0 all in
    let few = length-take_le (min (max limit 1) 200) (filter is_replayable m.dead) in
    (omega (arith, sums, same), sums.1, omega (arith, sums, few))
