-- ===== src/Claims/SweepWalk.antt =====
-- The sweep, for any relation on ledgers that a queued claim stays in.
use xelma_backend.Base.{
  ℕ, ◌≡◌, ◌*◌, ◌+◌, Bool, true, false, Option, none, some, List, [], ◌∷◌, find, find_first, refl,
  leb, take, arith,
}
use xelma_backend.Schema.{User, user_row, Db}
use xelma_backend.Claims.Rows.{Ledger, is_open_of, Claim}
use xelma_backend.Claims.Writes.{queue_claim}
use xelma_backend.Claims.Sweep.{
  SettledBets, PayoutSweepResult, SweepVerdict, candidate, unless_swept, unless_open, of_user,
  sweep_groups, sweep_unclaimed_winnings, settled_bets, nothing_swept, is_swept_since,
  latest_confirmed,
}

-- A candidate's wallet has no open claim.
candidate_has_none :
    (o : Option User) (settled : Option ℕ) (cs : List Claim) (u : User)
    → of_user o settled cs ≡ candidate u
    → find_first (is_open_of u.wallet_address) cs ≡ none
candidate_has_none none settled cs u e = cc
candidate_has_none (some v) settled cs u e =
    by_open (find_first (is_open_of v.wallet_address) cs) refl e
  where
    by_swept :
        (b : Bool)
        → find_first (is_open_of v.wallet_address) cs ≡ none
        → unless_swept b v ≡ candidate u
        → find_first (is_open_of u.wallet_address) cs ≡ none
    by_swept true gone e = cc
    by_swept false gone e = ground arith

    by_open :
        (c : Option Claim)
        → find_first (is_open_of v.wallet_address) cs ≡ c
        → unless_open c settled v cs ≡ candidate u
        → find_first (is_open_of u.wallet_address) cs ≡ none
    by_open none gone e =
        by_swept (is_swept_since settled (latest_confirmed v.wallet_address cs)) gone e
    by_open (some c) there e = cc

module _ (R : Ledger → Ledger → Type 0) (same : (l : Ledger) → R l l)
    (andthen : (l₁ l₂ l₃ : Ledger) → R l₁ l₂ → R l₂ l₃ → R l₁ l₃)
    (queues : (now u w : ℕ) (l : Ledger)
      → find_first (is_open_of w) l.claims ≡ none
      → R l (queue_claim now u w l)) where
  module _ (now batch : ℕ) (users : List User) where
    sweep_groups_in :
        (gs : List SettledBets) (r : PayoutSweepResult) (l : Ledger)
        → R l (sweep_groups now batch users gs r l).1
    unfolding sweep_groups
    sweep_groups_in [] r l = same l
    sweep_groups_in (g ∷ gs) r l =
        by_verdict (of_user (find g.user_id users) g.latest l.claims) refl (sweep_groups_in gs)
      where
        by_verdict :
            (v : SweepVerdict)
            → of_user (find g.user_id users) g.latest l.claims ≡ v
            → ((r : PayoutSweepResult) (l : Ledger) → R l (sweep_groups now batch users gs r l).1)
            → R l
                (elim v as (λ x. PayoutSweepResult × Ledger) [
                  | SweepVerdict.unknown_user ↦ sweep_groups now batch users gs r l
                  | SweepVerdict.has_open_claim ↦
                      sweep_groups now batch users gs
                        (record r { skipped_open = r.skipped_open + 1 })
                        l
                  | SweepVerdict.already_swept ↦
                      sweep_groups now batch users gs
                        (record r { skipped_already_swept = r.skipped_already_swept + 1 })
                        l
                  | candidate user ↦ elim (leb batch r.swept) as (λ x. PayoutSweepResult × Ledger) [
                    | true ↦ (r, l)
                    | false ↦
                        sweep_groups now batch users gs
                          (record r { swept = r.swept + 1 })
                          (queue_claim now user.id user.wallet_address l)
                  ]
                ]).1
        by_verdict SweepVerdict.unknown_user e rest = rest r l
        by_verdict SweepVerdict.has_open_claim e rest = rest _ l
        by_verdict SweepVerdict.already_swept e rest = rest _ l
        by_verdict (candidate u) e rest = by_room (leb batch r.swept)
          where
            queued : Ledger
            queued = queue_claim now u.id u.wallet_address l

            by_room :
                (b : Bool)
                → R l
                    (elim b as (λ x. PayoutSweepResult × Ledger) [
                      | true ↦ (r, l)
                      | false ↦
                          sweep_groups now batch users gs (record r { swept = r.swept + 1 }) queued
                    ]).1
            by_room true = same l
            by_room false =
                andthen l queued _
                  (queues now u.id u.wallet_address l
                    (candidate_has_none (find g.user_id users) g.latest l.claims u e))
                  (rest _ queued)

  pub sweep_unclaimed_winnings_in :
      (now batch : ℕ) (db : Db) (l : Ledger) → R l (sweep_unclaimed_winnings now batch db l).1
  unfolding sweep_unclaimed_winnings
  sweep_unclaimed_winnings_in now batch db l =
      sweep_groups_in now batch db.users (take (batch * 2) (settled_bets db.bets)) nothing_swept l
