-- ===== src/Sessions/Reconciled.antt =====
-- Rooms after a reconciliation.
use mathlib.Core.Path.{subst}
use xelma_backend.Base.{
  ℕ, ◌≡◌, ◌≢◌, ◌<◌, ◌⊎◌, refl, sym, ap, ◌∙◌, Bool, true, false, ◌||◌, not, some, List, [], ◌∷◌,
  ◌++◌, ◌==◌, leb, length, filter, find, update, if◌then◌else◌, arith, Bool-cases, inl, inr,
}
use xelma_backend.Sessions.Rooms.{mem, clamp_from, clamp_rooms, Session, session_row}
use xelma_backend.Sessions.Service.{
  is_empty, merged_rooms, is_consistent, reconcile_with, reconcile_rooms, with_rooms,
}
use xelma_backend.Sessions.Clamped.{mem-append, length-append_one}

-- Nothing is put out that was not there.
mem-clamp_from_old :
    (r : ℕ) (out rooms : List ℕ)
    → mem r out ≡ false
    → mem r rooms ≡ false
    → mem r (clamp_from out rooms) ≡ false
unfolding clamp_from
mem-clamp_from_old r out [] new gone = new
mem-clamp_from_old r out (x ∷ xs) new gone = ground (
  arith,
  mem-append r out (x ∷ []),
  mem-clamp_from_old r out xs new,
  mem-clamp_from_old r (out ++ x ∷ []) xs,
)

-- What was put out stays.
mem-clamp_from_stays :
    (r : ℕ) (out rooms : List ℕ) → mem r out ≡ true → mem r (clamp_from out rooms) ≡ true
unfolding clamp_from
mem-clamp_from_stays r out [] there = there
mem-clamp_from_stays r out (x ∷ xs) there = ground (
  arith,
  mem-append r out (x ∷ []),
  mem-clamp_from_stays r out xs there,
  mem-clamp_from_stays r (out ++ x ∷ []) xs,
)

-- A room is put out, unless the limit is reached.
mem-clamp_from_or_full :
    (r : ℕ) (out rooms : List ℕ)
    → r ≢ 0
    → length out < 32
    → mem r rooms ≡ true
    → (mem r (clamp_from out rooms) ≡ true) ⊎ (length (clamp_from out rooms) ≡ 32)
unfolding clamp_from
mem-clamp_from_or_full r out [] named short there = cc
mem-clamp_from_or_full r out (x ∷ xs) named short there =
    let appended = mem-append r out (x ∷ []) in
    let longer = length-append_one out x in
    let skipped = mem-clamp_from_or_full r out xs named short in
    let gone_on = mem-clamp_from_or_full r (out ++ x ∷ []) xs named in
    let old = mem-clamp_from_stays r out xs in
    let new = mem-clamp_from_stays r (out ++ x ∷ []) xs in
    elim (Bool-cases (x == 0 || mem x out)) [
      | inl skip ↦ elim (Bool-cases (r == x)) [
        | inl here ↦
            let its : x ≡ r = ground arith in
            let was : mem r out ≡ true = ap (λ y. mem y out) (sym its) ∙ ground arith in
            inl (ground (arith, old was))
        | inr further ↦ ground arith
      ]
      | inr put ↦ elim (Bool-cases (leb 32 (length (out ++ x ∷ [])))) [
        | inl full ↦ inr (ground arith)
        | inr room ↦ elim (Bool-cases (r == x)) [
          | inl here ↦ inl (ground arith)
          | inr further ↦ ground arith
        ]
      ]
    ]

-- An empty difference: every room of the one list is in the other.
empty_difference :
    (r : ℕ) (xs ys : List ℕ)
    → is_empty (filter (λ x. not (mem x ys)) xs) ≡ true
    → mem r xs ≡ true
    → mem r ys ≡ true
empty_difference r [] ys e there = cc
empty_difference r (x ∷ xs) ys e there = elim (Bool-cases (mem x ys)) [
  | inl both ↦ elim (Bool-cases (r == x)) [
    | inl here ↦ let its : x ≡ r = ground arith in ap (λ y. mem y ys) (sym its) ∙ both
    | inr further ↦ empty_difference r xs ys (ground arith) (ground arith)
  ]
  | inr stale ↦ absurd (ground arith)
]

mem-filter_in :
    (r : ℕ) (xs ys : List ℕ) → mem r ys ≡ false → mem r (filter (λ x. mem x ys) xs) ≡ false
mem-filter_in r [] ys gone = refl
mem-filter_in r (x ∷ xs) ys gone =
    let rest = mem-filter_in r xs ys gone in
    elim (Bool-cases (mem x ys)) [
      | inl both ↦ elim (Bool-cases (r == x)) [
        | inl here ↦
            let its : x ≡ r = ground arith in
            let not_both : mem x ys ≡ false = ap (λ y. mem y ys) its ∙ gone in absurd (ground arith)
        | inr further ↦ ground arith
      ]
      | inr stale ↦ ground arith
    ]

-- The rooms agree with the adapter's on a name, or the limit cut the name off.
abbrev pub AgreesOn : (r : ℕ) (adapter rooms : List ℕ) → Type 0
AgreesOn r adapter rooms =
    (mem r rooms ≡ mem r adapter) ⊎ ((length rooms ≡ 32) × (mem r rooms ≡ false))

merged_rooms-AgreesOn :
    (r : ℕ) (db adapter : List ℕ) → r ≢ 0 → AgreesOn r adapter (merged_rooms db adapter)
unfolding clamp_rooms
merged_rooms-AgreesOn r db adapter named =
    let all = filter (λ x. mem x adapter) db ++ adapter in
    let listed = mem-append r (filter (λ x. mem x adapter) db) adapter in
    elim (Bool-cases (mem r adapter)) [
      | inl there ↦ elim (mem-clamp_from_or_full r [] all named (omega arith) (ground arith)) [
        | inl put ↦ inl (put ∙ sym there)
        | inr full ↦ elim (Bool-cases (mem r (clamp_from [] all))) [
          | inl put ↦ inl (put ∙ sym there)
          | inr cut ↦ inr (full, cut)
        ]
      ]
      | inr gone ↦
          let kept = mem-filter_in r db adapter gone in
          inl (mem-clamp_from_old r [] all refl (ground arith) ∙ sym gone)
    ]

-- When a user's session is there, a reconciliation returns the rooms that the adapter has: on every
-- name but the empty one the two agree, unless the limit of 32 rooms is reached and the name is cut
-- off.
pub reconcile_rooms-AgreesOn :
    (meanwhile : List Session → List Session) (now user : ℕ) (adapter : List ℕ) (ss : List Session)
    (s : Session) (r : ℕ)
    → find user ss ≡ some s
    → r ≢ 0
    → AgreesOn r adapter (reconcile_rooms meanwhile now user adapter ss).0
unfolding reconcile_rooms
reconcile_rooms-AgreesOn meanwhile now user adapter ss s r there named =
    subst (λ o. AgreesOn r adapter (reconcile_with meanwhile now user adapter o ss).0) (sym there)
      (by_test (is_consistent s.rooms adapter) refl)
  where
    by_test :
        (b : Bool)
        → is_consistent s.rooms adapter ≡ b
        → AgreesOn r adapter
            (if◌then◌else◌ {A = List ℕ × List Session} b
              (s.rooms, ss)
              (
                merged_rooms s.rooms adapter,
                update user (with_rooms now (merged_rooms s.rooms adapter)) (meanwhile ss),
              )).0
    by_test false e = merged_rooms-AgreesOn r s.rooms adapter named
    by_test true e =
        let stale = empty_difference r s.rooms adapter (ground arith) in
        let missing = empty_difference r adapter s.rooms (ground arith) in
        elim (Bool-cases (mem r s.rooms)) [
          | inl in_db ↦ inl (ground (arith, stale in_db))
          | inr not_in_db ↦ elim (Bool-cases (mem r adapter)) [
            | inl in_adapter ↦ absurd (ground (arith, missing in_adapter))
            | inr neither ↦ inl (ground arith)
          ]
        ]
