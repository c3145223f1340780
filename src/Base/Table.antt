-- ===== src/Base/Table.antt =====
-- Tables of rows with a primary key, in insertion order. The keys of the schema are unique, so a
-- write by key meets at most one row.
use Prim.Native.Nat.{ℕ, ◌+◌, ◌<◌, ◌≤◌}
use mathlib.Core.Path.{◌≡◌, refl}
use mathlib.Core.Logic.{◌≢◌}
use mathlib.Core.Bool.{Bool}
use mathlib.Core.Option.{Option, none, some}
use mathlib.Core.List.{List, [], ◌∷◌, ◌++◌}
use native.Mathlib.Omega.{arith}
use xelma_backend.Base.Tests.{◌==◌, if◌then◌else◌}
use xelma_backend.Base.Lists.{sum_by, All}

pub record Row (A : Type 0) : Type 0 where
  pub key : A → ℕ

module _ {A : Type 0} where
  -- `findFirst({ where })`
  abbrev pub find_first : (A → Bool) → List A → Option A
  find_first p [] = none
  find_first p (x ∷ xs) = if p x then some x else find_first p xs

module _ {A : Type 0} ⦃r : Row A⦄ where
  -- `findUnique({ where: { id } })`
  abbrev pub find : ℕ → List A → Option A
  find k [] = none
  find k (x ∷ xs) = if r.key x == k then some x else find k xs

  -- `update({ where: { id }, data })` on a row that is there
  abbrev pub update : ℕ → (A → A) → List A → List A
  update k f [] = []
  update k f (x ∷ xs) = if r.key x == k then f x ∷ xs else x ∷ update k f xs

  abbrev pub apply_to : (A → A) → Option A → Option A
  apply_to f none = none
  apply_to f (some x) = some (f x)

  -- A read after a write, with no side condition but that the write keeps the key.
  pub find-update :
      (j k : ℕ) (f : A → A) (xs : List A)
      → ((x : A) → r.key (f x) ≡ r.key x)
      → find j (update k f xs) ≡ (if j == k then apply_to f (find j xs) else find j xs)
  find-update j k f [] keeps = ground arith
  find-update j k f (x ∷ xs) keeps = ground (arith, keeps x, find-update j k f xs keeps)

  pub find-update_ne :
      (j k : ℕ) (f : A → A) (xs : List A)
      → ((x : A) → r.key (f x) ≡ r.key x)
      → j ≢ k
      → find j (update k f xs) ≡ find j xs
  find-update_ne j k f [] keeps ne = refl
  find-update_ne j k f (x ∷ xs) keeps ne = ground (arith, keeps x, find-update_ne j k f xs keeps ne)

  pub find-update_self :
      (k : ℕ) (f : A → A) (x : A) (xs : List A)
      → ((x : A) → r.key (f x) ≡ r.key x)
      → find k xs ≡ some x
      → find k (update k f xs) ≡ some (f x)
  find-update_self k f x [] keeps e = cc
  find-update_self k f x (y ∷ ys) keeps e = ground (arith, keeps y, find-update_self k f x ys keeps)

  -- A sum moves by what the written row moves.
  pub sum_by-update :
      (g : A → ℕ) (k : ℕ) (f : A → A) (x : A) (xs : List A)
      → find k xs ≡ some x
      → sum_by g (update k f xs) + g x ≡ sum_by g xs + g (f x)
  sum_by-update g k f x [] e = cc
  sum_by-update g k f x (y ∷ ys) e = ground (arith, sum_by-update g k f x ys)

  -- A write to a key that is not there changes nothing.
  pub update_absent : (k : ℕ) (f : A → A) (xs : List A) → find k xs ≡ none → update k f xs ≡ xs
  update_absent k f [] e = refl
  update_absent k f (x ∷ xs) e = ground (arith, update_absent k f xs)

  pub find-append :
      (k : ℕ) (xs : List A) (y : A)
      → find k xs ≡ none
      → find k (xs ++ y ∷ []) ≡ (if r.key y == k then some y else none)
  find-append k [] y e = refl
  find-append k (x ∷ xs) y e = ground (arith, find-append k xs y)

  -- A key above all that were given out is not there.
  pub find_fresh : (n k : ℕ) (xs : List A) → All (λ x. r.key x < n) xs → n ≤ k → find k xs ≡ none
  find_fresh n k [] h le = refl
  find_fresh n k (x ∷ xs) h le = ground (arith, find_fresh n k xs h.1 le)

  pub key-find : (k : ℕ) (x : A) (xs : List A) → find k xs ≡ some x → r.key x ≡ k
  key-find k x [] e = cc
  key-find k x (y ∷ ys) e = ground (arith, key-find k x ys)
