-- ===== src/Sessions/Clamped.antt =====
-- What `clampRooms` puts out: each room once, and no more than the limit.
use xelma_backend.Base.{
  ℕ, ◌≡◌, ◌+◌, ◌≤◌, ◌<◌, refl, Bool, true, false, ◌||◌, List, [], ◌∷◌, ◌++◌, ◌==◌, leb, length,
  filter, if◌then◌else◌, arith,
}
use xelma_backend.Sessions.Rooms.{mem, clamp_from}

abbrev pub IsDistinct : List ℕ → Type 0
IsDistinct [] = Unit
IsDistinct (x ∷ xs) = (mem x xs ≡ false) × IsDistinct xs

pub mem-append : (r : ℕ) (xs ys : List ℕ) → mem r (xs ++ ys) ≡ (mem r xs || mem r ys)
mem-append r [] ys = refl
mem-append r (x ∷ xs) ys = ground (arith, mem-append r xs ys)

pub length-append_one : (xs : List ℕ) (r : ℕ) → length (xs ++ r ∷ []) ≡ length xs + 1
length-append_one [] r = omega arith
length-append_one (x ∷ xs) r = omega (arith, length-append_one xs r)

append_one-IsDistinct :
    (xs : List ℕ) (r : ℕ) → mem r xs ≡ false → IsDistinct xs → IsDistinct (xs ++ r ∷ [])
append_one-IsDistinct [] r new d = (refl, tt)
append_one-IsDistinct (x ∷ xs) r new d =
    (ground (arith, d.0, mem-append x xs (r ∷ [])), append_one-IsDistinct xs r (ground arith) d.1)

pub filter-IsDistinct : (p : ℕ → Bool) (xs : List ℕ) → IsDistinct xs → IsDistinct (filter p xs)
filter-IsDistinct p [] d = tt
filter-IsDistinct p (x ∷ xs) d = by_test (p x) (mem-filter x xs d.0) (filter-IsDistinct p xs d.1)
  where
    mem-filter : (y : ℕ) (ys : List ℕ) → mem y ys ≡ false → mem y (filter p ys) ≡ false
    mem-filter y [] e = refl
    mem-filter y (z ∷ zs) e = ground (arith, mem-filter y zs)

    by_test :
        (b : Bool)
        → mem x (filter p xs) ≡ false
        → IsDistinct (filter p xs)
        → IsDistinct (if b then x ∷ filter p xs else filter p xs)
    by_test true new d = (new, d)
    by_test false new d = d

pub length-filter_le : (p : ℕ → Bool) (xs : List ℕ) → length (filter p xs) ≤ length xs
length-filter_le p [] = omega arith
length-filter_le p (x ∷ xs) = ground (arith, length-filter_le p xs)

-- A list that may be stored.
abbrev pub IsClamped : List ℕ → Type 0
IsClamped rooms = IsDistinct rooms × (length rooms ≤ 32)

pub clamp_from-IsClamped :
    (out rooms : List ℕ) → IsDistinct out → length out < 32 → IsClamped (clamp_from out rooms)
unfolding clamp_from
clamp_from-IsClamped out [] d short = (d, omega arith)
clamp_from-IsClamped out (r ∷ rs) d short =
    by_test (r == 0 || mem r out) refl (leb 32 (length (out ++ r ∷ []))) refl
      (clamp_from-IsClamped out rs d short) (clamp_from-IsClamped (out ++ r ∷ []) rs)
  where
    by_test :
        (b : Bool)
        → (r == 0 || mem r out) ≡ b
        → (c : Bool) → leb 32 (length (out ++ r ∷ [])) ≡ c
        → IsClamped (clamp_from out rs)
        → (IsDistinct (out ++ r ∷ [])
            → length (out ++ r ∷ []) < 32
            → IsClamped (clamp_from (out ++ r ∷ []) rs))
        → IsClamped (
            if b
            then clamp_from out rs
            else if c
            then out ++ r ∷ []
            else clamp_from (out ++ r ∷ []) rs)
    by_test true e c f skip more = skip
    by_test false e c f skip more =
        by_room c f (append_one-IsDistinct out r (ground arith) d) (length-append_one out r)
      where
        by_room :
            (c : Bool)
            → leb 32 (length (out ++ r ∷ [])) ≡ c
            → IsDistinct (out ++ r ∷ [])
            → length (out ++ r ∷ []) ≡ length out + 1
            → IsClamped (if c then out ++ r ∷ [] else clamp_from (out ++ r ∷ []) rs)
        by_room true f d' len = (d', omega arith)
        by_room false f d' len = more d' (ground arith)
