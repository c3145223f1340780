-- ===== src/Sessions/Runs.antt =====
-- Any sequence of calls of the session service.
use mathlib.Core.Path.{subst}
use xelma_backend.Base.{
  ℕ, ◌≡◌, ◌==◌, refl, sym, Bool, true, false, not, Option, none, some, List, [], ◌∷◌, ◌++◌, find,
  update, find-update, filter, if◌then◌else◌, arith, Option-cases, Bool-cases, inl, inr, All, ◌⊎◌,
}
use xelma_backend.Sessions.Rooms.{mem, clamp_rooms, Session, session_row}
use xelma_backend.Sessions.Service.{
  record_connect, upsert, connected, new_session, with_rooms, add_to, add_room, remove_from,
  remove_room, reconcile_with, reconcile_rooms, merged_rooms, is_consistent, with_metadata,
  patch_found, patch_metadata, disconnected, record_disconnect,
}
use xelma_backend.Sessions.Clamped.{
  IsClamped, clamp_from-IsClamped, filter-IsDistinct, length-filter_le,
}

-- Every session keeps each room once, and 32 rooms at most.
abbrev pub AreClamped : List Session → Type 0
AreClamped ss = (user : ℕ) (s : Session) → find user ss ≡ some s → IsClamped s.rooms

clamp_rooms-IsClamped : (rooms : List ℕ) → IsClamped (clamp_rooms rooms)
unfolding clamp_rooms
clamp_rooms-IsClamped rooms = clamp_from-IsClamped [] rooms tt (omega arith)

update-AreClamped :
    (user : ℕ) (f : Session → Session) (ss : List Session)
    → ((s : Session) → (f s).user_id ≡ s.user_id)
    → ((s : Session) → IsClamped s.rooms → IsClamped (f s).rooms)
    → AreClamped ss
    → AreClamped (update user f ss)
update-AreClamped user f ss keeps good well k s there = elim (Option-cases (find k ss)) [
  | inl gone ↦ absurd (ground (arith, find-update k user f ss keeps))
  | inr (t, was) ↦ elim (Bool-cases (k == user)) [
    | inl here ↦
        let is : f t ≡ s = ground (arith, find-update k user f ss keeps) in
        subst (λ x. IsClamped x.rooms) is (good t (well k t was))
    | inr other ↦
        let is : t ≡ s = ground (arith, find-update k user f ss keeps) in
        subst (λ x. IsClamped x.rooms) is (well k t was)
  ]
]

find-append_inv :
    (k : ℕ) (ss : List Session) (n s : Session)
    → find k (ss ++ n ∷ []) ≡ some s
    → (find k ss ≡ some s) ⊎ (s ≡ n)
find-append_inv k [] n s found = ground arith
find-append_inv k (x ∷ ss) n s found = elim (Bool-cases (x.user_id == k)) [
  | inl here ↦ inl (ground arith)
  | inr other ↦ elim (find-append_inv k ss n s (ground arith)) [
    | inl old ↦ inl (ground arith)
    | inr new ↦ inr new
  ]
]

-- A call of the service, with what others commit between its read and its write.
pub data SessionCall : Type 0 where
  connects : (now user wallet socket : ℕ) → SessionCall
  adds removes : (now user room : ℕ) → SessionCall
  reconciles : (now user : ℕ) (adapter : List ℕ) → SessionCall
  patches : (now user : ℕ) (patch : Option ℕ → Option ℕ) → SessionCall
  disconnects : (now user : ℕ) → SessionCall

pub record Overlapped : Type 0 where
  pub call : SessionCall
  pub meanwhile : List Session → List Session

abbrev pub session_call : SessionCall → (List Session → List Session) → List Session → List Session
session_call (connects now user wallet socket) meanwhile ss =
    (record_connect meanwhile now user wallet socket ss).1
session_call (adds now user room) meanwhile ss = add_room meanwhile now user room ss
session_call (removes now user room) meanwhile ss = remove_room meanwhile now user room ss
session_call (reconciles now user adapter) meanwhile ss =
    (reconcile_rooms meanwhile now user adapter ss).1
session_call (patches now user patch) meanwhile ss = patch_metadata meanwhile now user patch ss
session_call (disconnects now user) meanwhile ss = record_disconnect now user ss

unfoldable pub session_calls : List Overlapped → List Session → List Session
session_calls [] ss = ss
session_calls (c ∷ cs) ss = session_calls cs (session_call c.call c.meanwhile ss)

abbrev pub LeavesClamped : Overlapped → Type 0
LeavesClamped c = (ss : List Session) → AreClamped ss → AreClamped (c.meanwhile ss)

module _ (meanwhile : List Session → List Session)
    (quiet : (ss : List Session) → AreClamped ss → AreClamped (meanwhile ss)) where
  write-AreClamped :
      (now user : ℕ) (rooms : List ℕ) (ss : List Session)
      → IsClamped rooms
      → AreClamped ss
      → AreClamped (update user (with_rooms now rooms) (meanwhile ss))
  write-AreClamped now user rooms ss good well =
      update-AreClamped user (with_rooms now rooms) (meanwhile ss) (λ s. refl) (λ s h. good)
        (quiet ss well)

  record_connect-AreClamped :
      (now user wallet socket : ℕ) (ss : List Session)
      → AreClamped ss
      → AreClamped (record_connect meanwhile now user wallet socket ss).1
  unfolding record_connect
  record_connect-AreClamped now user wallet socket ss well = by_row (find user (meanwhile ss))
    where
      by_row : (o : Option Session) → AreClamped (upsert o now user wallet socket (meanwhile ss))
      by_row none = λ k s there.
          elim (find-append_inv k (meanwhile ss) (new_session now user wallet socket) s there) [
            | inl old ↦ quiet ss well k s old
            | inr new ↦ subst (λ x. IsClamped x.rooms) (sym new) (tt, omega arith)
          ]
      by_row (some s) =
          update-AreClamped user (connected now wallet socket) (meanwhile ss) (λ s. refl) (λ s h. h)
            (quiet ss well)

  if-AreClamped :
      (b : Bool) (xs ys : List Session)
      → AreClamped xs
      → AreClamped ys
      → AreClamped (if b then xs else ys)
  if-AreClamped true xs ys p q = p
  if-AreClamped false xs ys p q = q

  add_to-AreClamped :
      (now user room : ℕ) (o : Option Session) (ss : List Session)
      → AreClamped ss
      → AreClamped (add_to meanwhile now user room o ss)
  add_to-AreClamped now user room none ss well = well
  add_to-AreClamped now user room (some s) ss well =
      if-AreClamped (mem room s.rooms) ss
        (update user (with_rooms now (clamp_rooms (s.rooms ++ room ∷ []))) (meanwhile ss)) well
        (write-AreClamped now user (clamp_rooms (s.rooms ++ room ∷ [])) ss
          (clamp_rooms-IsClamped (s.rooms ++ room ∷ [])) well)

  remove_from-AreClamped :
      (now user room : ℕ) (o : Option Session) (ss : List Session)
      → find user ss ≡ o
      → AreClamped ss
      → AreClamped (remove_from meanwhile now user room o ss)
  remove_from-AreClamped now user room none ss e well = well
  remove_from-AreClamped now user room (some s) ss e well =
      let kept = filter (λ r. not (r == room)) s.rooms in
      let before = well user s e in
      write-AreClamped now user kept ss
        (
          filter-IsDistinct (λ r. not (r == room)) s.rooms before.0,
          omega (arith, length-filter_le (λ r. not (r == room)) s.rooms, before),
        )
        well

  reconcile_with-AreClamped :
      (now user : ℕ) (adapter : List ℕ) (o : Option Session) (ss : List Session)
      → AreClamped ss
      → AreClamped (reconcile_with meanwhile now user adapter o ss).1
  reconcile_with-AreClamped now user adapter none ss well = well
  reconcile_with-AreClamped now user adapter (some s) ss well =
      by_test (is_consistent s.rooms adapter)
    where
      merged : List ℕ
      merged = merged_rooms s.rooms adapter

      by_test :
          (b : Bool)
          → AreClamped
              (if◌then◌else◌ {A = List ℕ × List Session} b
                (s.rooms, ss)
                (merged, update user (with_rooms now merged) (meanwhile ss))).1
      by_test true = well
      by_test false =
          write-AreClamped now user merged ss
            (clamp_rooms-IsClamped (filter (λ r. mem r adapter) s.rooms ++ adapter)) well

  patch_found-AreClamped :
      (now user : ℕ) (patch : Option ℕ → Option ℕ) (o : Option Session) (ss : List Session)
      → AreClamped ss
      → AreClamped (patch_found meanwhile now user patch o ss)
  patch_found-AreClamped now user patch none ss well = well
  patch_found-AreClamped now user patch (some s) ss well = by_patch (patch s.metadata)
    where
      by_patch :
          (m : Option ℕ)
          → AreClamped (update user (with_metadata meanwhile now user m) (meanwhile ss))
      by_patch none =
          update-AreClamped user (with_metadata meanwhile now user none) (meanwhile ss) (λ s. refl)
            (λ s h. h) (quiet ss well)
      by_patch (some m) =
          update-AreClamped user (with_metadata meanwhile now user (some m)) (meanwhile ss)
            (λ s. refl) (λ s h. h) (quiet ss well)

  session_call-AreClamped :
      (c : SessionCall) (ss : List Session)
      → AreClamped ss
      → AreClamped (session_call c meanwhile ss)
  unfolding add_room remove_room reconcile_rooms patch_metadata record_disconnect
  session_call-AreClamped (connects now user wallet socket) ss well =
      record_connect-AreClamped now user wallet socket ss well
  session_call-AreClamped (adds now user room) ss well =
      if-AreClamped (room == 0) ss (add_to meanwhile now user room (find user ss) ss) well
        (add_to-AreClamped now user room (find user ss) ss well)
  session_call-AreClamped (removes now user room) ss well =
      if-AreClamped (room == 0) ss (remove_from meanwhile now user room (find user ss) ss) well
        (remove_from-AreClamped now user room (find user ss) ss refl well)
  session_call-AreClamped (reconciles now user adapter) ss well =
      reconcile_with-AreClamped now user adapter (find user ss) ss well
  session_call-AreClamped (patches now user patch) ss well =
      patch_found-AreClamped now user patch (find user ss) ss well
  session_call-AreClamped (disconnects now user) ss well =
      update-AreClamped user (disconnected now) ss (λ s. refl) (λ s h. h) well

-- Through any sequence of calls, each with what others commit between its read and its write, a
-- session that is stored has no room twice and 32 rooms at most, if this is so at the start and
-- what the others commit keeps it.
pub session_calls-AreClamped :
    (cs : List Overlapped) (ss : List Session)
    → All LeavesClamped cs
    → AreClamped ss
    → AreClamped (session_calls cs ss)
unfolding session_calls
session_calls-AreClamped [] ss quiet well = well
session_calls-AreClamped (c ∷ cs) ss quiet well =
    session_calls-AreClamped cs (session_call c.call c.meanwhile ss) quiet.1
      (session_call-AreClamped c.meanwhile quiet.0 c.call ss well)
