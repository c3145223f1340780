-- ===== src/Base/Control.antt =====
-- Calls that may throw, and calls that also change a state. The state comes back after a throw:
-- what was written stays written unless a transaction rolls it back.
use mathlib.Core.Path.{◌≡◌, refl, ◌∙◌}
use mathlib.Core.Bool.{Bool, true, false}
use mathlib.Core.Option.{Option, none, some}
use mathlib.Core.List.{List, [], ◌∷◌}
use xelma_backend.Base.Tests.{if◌then◌else◌}

module _ where
  pub data Result (E A : Type 0) : Type 0 where
    ok : A → Result E A
    err : E → Result E A

abbrev pub Action : Type 0 → Type 0 → Type 0 → Type 0
Action E S A = S → Result E A × S

module _ {E S : Type 0} where
  abbrev pub pure : {A : Type 0} → A → Action E S A
  pure a s = (ok a, s)

  abbrev pub throw : {A : Type 0} → E → Action E S A
  throw e s = (err e, s)

  abbrev pub modify : (S → S) → Action E S (Unit {0})
  modify f s = (ok tt, f s)

  abbrev pub gets : {A : Type 0} → (S → A) → Action E S A
  gets f s = (ok (f s), s)

  abbrev pub or_throw : {A : Type 0} → Option A → E → Action E S A
  or_throw none e = throw e
  or_throw (some a) e = pure a

  abbrev pub throw_if : Bool → E → Action E S (Unit {0})
  throw_if true e = throw e
  throw_if false e = pure tt

infixl 5 ◌>>=◌ ◌>>◌
abbrev pub ◌>>=◌ : {E S A B : Type 0} → Action E S A → (A → Action E S B) → Action E S B
◌>>=◌ m f s = let (r, s') = m s in elim r [ ok a ↦ f a s' | err e ↦ (err e, s') ]

abbrev pub ◌>>◌ : {E S A B : Type 0} → Action E S A → Action E S B → Action E S B
◌>>◌ m k s = let (r, s') = m s in elim r [ ok a ↦ k s' | err e ↦ (err e, s') ]

-- `for (const x of xs) await f(x)`
unfoldable pub for_each :
    {E S A : Type 0} → (A → Action E S (Unit {0})) → List A → Action E S (Unit {0})
for_each f [] s = (ok tt, s)
for_each f (x ∷ xs) s =
    let (r, s') = f x s in elim r [ ok a ↦ for_each f xs s' | err e ↦ (err e, s') ]

-- `prisma.$transaction`: a throw takes every write back.
abbrev pub transaction : {E S A : Type 0} → Action E S A → Action E S A
transaction m s = let (r, s') = m s in elim r [ ok a ↦ (ok a, s') | err e ↦ (err e, s) ]

abbrev pub Returns : {E S A : Type 0} → Result E A × S → Type 0
Returns (ok _, _) = Unit
Returns (err _, _) = ⊥

-- The rules of a call and of a transaction: what holds after each way that the first part ends.
pub after :
    {E S A B : Type 0} (P : Result E B × S → Type 0) (k : A → Action E S B) (p : Result E A × S)
    → ((a : A) (s : S) → p ≡ (ok a, s) → P (k a s))
    → ((e : E) (s : S) → p ≡ (err e, s) → P (err e, s))
    → P (elim p.0 [ ok a ↦ k a p.1 | err e ↦ (err e, p.1) ])
after P k (ok a, s) good bad = good a s refl
after P k (err e, s) good bad = bad e s refl

pub after_transaction :
    {E S A : Type 0} (P : Result E A × S → Type 0) (m : Action E S A) (s : S)
    → ((a : A) (s' : S) → m s ≡ (ok a, s') → P (ok a, s'))
    → ((e : E) (s' : S) → m s ≡ (err e, s') → P (err e, s))
    → P (transaction m s)
after_transaction {E} {S} {A} P m s good bad = go (m s) good bad
  where
    go :
        (p : Result E A × S)
        → ((a : A) (s' : S) → p ≡ (ok a, s') → P (ok a, s'))
        → ((e : E) (s' : S) → p ≡ (err e, s') → P (err e, s))
        → P (elim p.0 [ ok a ↦ (ok a, p.1) | err e ↦ (err e, s) ])
    go (ok a, s') good bad = good a s' refl
    go (err e, s') good bad = bad e s' refl

-- A loop that returned ran its first round and then the others.
pub for_each-cons :
    {E S A : Type 0} (f : A → Action E S (Unit {0})) (x : A) (xs : List A) (s s' : S)
    → for_each f (x ∷ xs) s ≡ (ok tt, s')
    → (s₁ : S) × (f x s ≡ (ok tt, s₁)) × (for_each f xs s₁ ≡ (ok tt, s'))
unfolding for_each
for_each-cons {E} {S} {A} f x xs s s' h = go (f x s) h
  where
    go :
        (p : Result E (Unit {0}) × S)
        → ◌≡◌ {A = Result E (Unit {0}) × S}
            (elim p.0 [ ok a ↦ for_each f xs p.1 | err e ↦ (err e, p.1) ])
            (ok tt, s')
        → (s₁ : S) × (p ≡ (ok tt, s₁)) × (for_each f xs s₁ ≡ (ok tt, s'))
    go (ok a, s₁) e = (s₁, refl, e)
    go (err x, s₁) e = cc

-- A sequence that returned: both its parts did.
pub then_ok :
    {E S A B : Type 0} (p : Result E A × S) (k : Action E S B) (b : B) (s' : S)
    → ◌≡◌ {A = Result E B × S} (elim p.0 [ ok a ↦ k p.1 | err e ↦ (err e, p.1) ]) (ok b, s')
    → (a : A) × (p.0 ≡ ok a) × (k p.1 ≡ (ok b, s'))
then_ok (ok a, s) k b s' h = (a, refl, h)
then_ok (err e, s) k b s' h = cc

-- A call that leaves a part of the state alone, on every way out.
abbrev pub Fixes : {E S A X : Type 0} → (S → X) → Action E S A → Type 0
Fixes view m = (s : _) → view (m s).1 ≡ view s

module _ {E S X : Type 0} (view : S → X) where
  pub then-Fixes :
      {A B : Type 0} (m : Action E S A) (k : Action E S B)
      → Fixes view m
      → Fixes view k
      → Fixes view (m >> k)
  then-Fixes {A} {B} m k hm hk s = go (m s) (hm s)
    where
      go :
          (p : Result E A × S)
          → view p.1 ≡ view s
          → view (elim p.0 as (λ x. Result E B × S) [ ok a ↦ k p.1 | err e ↦ (err e, p.1) ]).1
            ≡ view s
      go (ok a, s₁) e = hk s₁ ∙ e
      go (err x, s₁) e = e

  pub for_each-Fixes :
      {A : Type 0} (f : A → Action E S (Unit {0}))
      → ((x : A) → Fixes view (f x))
      → (xs : List A) → Fixes view (for_each f xs)
  unfolding for_each
  for_each-Fixes f h [] s = refl
  for_each-Fixes f h (x ∷ xs) s = then-Fixes (f x) (for_each f xs) (h x) (for_each-Fixes f h xs) s

  pub if-Fixes :
      {A : Type 0} (b : Bool) (m k : Action E S A)
      → Fixes view m
      → Fixes view k
      → Fixes view (if b then m else k)
  if-Fixes true m k hm hk = hm
  if-Fixes false m k hm hk = hk

-- A call that keeps an invariant of the state, on every way out.
abbrev pub Keeps : {E S A : Type 0} → (S → Type 0) → Action E S A → Type 0
Keeps P m = (s : _) → P s → P (m s).1

module _ {E S : Type 0} (P : S → Type 0) where
  pub then-Keeps :
      {A B : Type 0} (m : Action E S A) (k : Action E S B)
      → Keeps P m
      → Keeps P k
      → Keeps P (m >> k)
  then-Keeps {A} {B} m k hm hk s p = go (m s) (hm s p)
    where
      go :
          (q : Result E A × S)
          → P q.1
          → P (elim q.0 as (λ x. Result E B × S) [ ok a ↦ k q.1 | err e ↦ (err e, q.1) ]).1
      go (ok a, s₁) p = hk s₁ p
      go (err x, s₁) p = p

  pub for_each-Keeps :
      {A : Type 0} (f : A → Action E S (Unit {0}))
      → ((x : A) → Keeps P (f x))
      → (xs : List A) → Keeps P (for_each f xs)
  unfolding for_each
  for_each-Keeps f h [] s p = p
  for_each-Keeps f h (x ∷ xs) s p =
      then-Keeps (f x) (for_each f xs) (h x) (for_each-Keeps f h xs) s p

  pub transaction-Keeps : {A : Type 0} (m : Action E S A) → Keeps P m → Keeps P (transaction m)
  transaction-Keeps {A} m h s p = go (m s) (h s p)
    where
      go :
          (q : Result E A × S)
          → P q.1
          → P (elim q.0 as (λ x. Result E A × S) [ ok a ↦ (ok a, q.1) | err e ↦ (err e, s) ]).1
      go (ok a, s₁) k = k
      go (err x, s₁) k = p
