-- ===== src/PriceRange/Winning.antt =====
-- Which range wins a LEGENDS round.
use mathlib.Core.List.{Memᴰ}
use xelma_backend.Base.{
  ℕ, ◌⊎◌, Option, none, ◌++◌, ◌<◌, ◌≤◌, ◌≡◌, Bool, true, false, Bool-cases, some, List, [], ◌∷◌,
  All, ap, sym, arith, inl, inr, leb,
}
use xelma_backend.Decimals.{DecimalApi}
use xelma_backend.Decimals.Laws.{DecimalLaws}
use xelma_backend.PriceRange.Ranges.{
  RoundRange, sort_by_min, insert_by_min, in_range, is_nil, winning_range,
}

-- Sorted ranges that do not overlap: each ends where a later one starts, or before.
abbrev pub Disjoint : List RoundRange → Type 0
Disjoint [] = Unit
Disjoint (r ∷ rs) = All (λ (s : RoundRange). r.max ≤ s.min) rs × Disjoint rs

abbrev pub SortedByMin : List RoundRange → Type 0
SortedByMin [] = Unit
SortedByMin (r ∷ rs) = All (λ (s : RoundRange). r.min ≤ s.min) rs × SortedByMin rs

-- The price lies in the half-open range.
abbrev pub Holds : ℕ → RoundRange → Type 0
Holds p r = (r.min ≤ p) × (p < r.max)

abbrev pub IsLast : RoundRange → List RoundRange → Type 0
IsLast r rs = (before : List RoundRange) × (rs ≡ before ++ r ∷ [])

-- The price is below the range, or at its end or beyond.
abbrev pub Misses : ℕ → RoundRange → Type 0
Misses p r = (p < r.min) ⊎ (r.max ≤ p)

-- Which of the ranges a price falls into, if any does.
abbrev pub Wins : ℕ → List RoundRange → Option RoundRange → Type 0
Wins p rs none = All (Misses p) rs
Wins p rs (some r) =
    Memᴰ r rs
    × (r.min ≤ p)
    × ((p < r.max) ⊎ ((p ≡ r.max) × IsLast r rs))
    × All (λ s. (s ≡ r) ⊎ Misses p s) rs

insert-All :
    (k : ℕ) (r : RoundRange) (rs : List RoundRange)
    → k ≤ r.min
    → All (λ (s : RoundRange). k ≤ s.min) rs
    → All (λ (s : RoundRange). k ≤ s.min) (insert_by_min r rs)
insert-All k r [] le h = (le, tt)
insert-All k r (s ∷ rs) le h = ground (arith, insert-All k r rs le h.1)

All-weaken :
    (j k : ℕ) (rs : List RoundRange)
    → j ≤ k
    → All (λ (s : RoundRange). k ≤ s.min) rs
    → All (λ (s : RoundRange). j ≤ s.min) rs
All-weaken j k [] le h = tt
All-weaken j k (s ∷ rs) le h = (omega arith, All-weaken j k rs le h.1)

insert-SortedByMin :
    (r : RoundRange) (rs : List RoundRange) → SortedByMin rs → SortedByMin (insert_by_min r rs)
insert-SortedByMin r [] h = (tt, tt)
insert-SortedByMin r (s ∷ rs) h = elim (Bool-cases (leb r.min s.min)) [
  | inl before ↦ rw before ((ground arith, All-weaken r.min s.min rs (ground arith) h.0), h)
  | inr behind ↦ rw behind (insert-All s.min r rs (ground arith) h.0, insert-SortedByMin r rs h.1)
]

-- Sorting the ranges leaves them in the order of their lower bounds.
pub sort-SortedByMin : (rs : List RoundRange) → SortedByMin (sort_by_min rs)
unfolding sort_by_min
sort-SortedByMin [] = tt
sort-SortedByMin (r ∷ rs) = insert-SortedByMin r (sort_by_min rs) (sort-SortedByMin rs)

module _ (api : DecimalApi) (laws : DecimalLaws api) where
  open api use {dec, cmp}
  open laws use {cmp-dec}

  Holds-in_range :
      (p : ℕ) (last : Bool) (r : RoundRange) → Holds p r → in_range api (dec p) last r ≡ true
  Holds-in_range p true r h = ground (arith, cmp-dec p r.min, cmp-dec p r.max)
  Holds-in_range p false r h = ground (arith, cmp-dec p r.min, cmp-dec p r.max)

  below-All :
      (p k : ℕ) (rs : List RoundRange) (r : RoundRange)
      → Memᴰ r rs
      → All (λ (s : RoundRange). k ≤ s.min) rs
      → k ≤ r.min
  below-All p k [] r m h = elim m [ ]
  below-All p k (s ∷ rs) r (Memᴰ.head e) h = rw e h.0
  below-All p k (s ∷ rs) r (Memᴰ.tail m) h = below-All p k rs r m h.1

  -- Among sorted ranges that do not overlap, a range that holds the price, its upper bound
  -- excluded, is the one that wins.
  pub winning_range_unique :
      (p : ℕ) (rs : List RoundRange) (r : RoundRange)
      → Disjoint rs
      → Memᴰ r rs
      → Holds p r
      → winning_range api (dec p) rs ≡ some r
  unfolding winning_range
  winning_range_unique p [] r d m h = elim m [ ]
  winning_range_unique p (s ∷ rs) r d (Memᴰ.head e) h =
      let hit = Holds-in_range p (is_nil rs) s (rw e at h) in rw hit (ap some (sym e))
  winning_range_unique p (s ∷ []) r d (Memᴰ.tail m) h = elim m [ ]
  winning_range_unique p (s ∷ t ∷ ts) r d (Memᴰ.tail m) h =
      let apart : s.max ≤ r.min = below-All p s.max (t ∷ ts) r m d.0 in
      let miss : in_range api (dec p) false s ≡ false =
        ground (arith, cmp-dec p s.min, cmp-dec p s.max) in
      rw miss (winning_range_unique p (t ∷ ts) r d.1 m h)
