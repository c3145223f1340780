-- ===== src/Tests/Reconnecting.antt =====
-- A player's session: a connection, rooms, and a reconciliation with the adapter.
use xelma_backend.Base.{ℕ, ◌≡◌, refl, List, [], ◌∷◌, arith}
use xelma_backend.Sessions.{
  Session, session_row, new_session, reconcile_rooms, clamp_rooms, clamp_from,
}
use xelma_backend.Sessions.Reconciled.{AgreesOn, reconcile_rooms-AgreesOn}
use xelma_backend.Sessions.Runs.{
  AreClamped, Overlapped, connects, adds, reconciles, session_calls, session_calls-AreClamped,
}

abbrev a_session : Session
a_session = record (new_session 5 1 11 100) { rooms = 3 ∷ 4 ∷ [] }

abbrev adapter_rooms : List ℕ
adapter_rooms = 4 ∷ 7 ∷ 7 ∷ []

abbrev nobody : List Session → List Session
nobody ss = ss

reconcile_rooms-AgreesOn_example :
    AgreesOn 7 adapter_rooms (reconcile_rooms nobody 9 1 adapter_rooms (a_session ∷ [])).0
reconcile_rooms-AgreesOn_example =
    reconcile_rooms-AgreesOn nobody 9 1 adapter_rooms (a_session ∷ []) a_session 7 refl
      (λ e. omega arith)

-- Room 3 is stale, and room 7 was missing.
reconciled : (reconcile_rooms nobody 9 1 adapter_rooms (a_session ∷ [])).0 ≡ 4 ∷ 7 ∷ []
unfolding reconcile_rooms clamp_rooms clamp_from
reconciled = refl

abbrev an_evening : List Overlapped
an_evening =
    record { call = connects 1 1 11 100; meanwhile = nobody }
    ∷ record { call = adds 2 1 3; meanwhile = nobody }
    ∷ record { call = adds 3 1 4; meanwhile = nobody }
    ∷ record { call = reconciles 4 1 adapter_rooms; meanwhile = nobody }
    ∷ []

nobody_stored : AreClamped []
nobody_stored user s there = cc

session_calls-AreClamped_example : AreClamped (session_calls an_evening [])
session_calls-AreClamped_example =
    session_calls-AreClamped an_evening [] (λ ss h. h, (λ ss h. h, (λ ss h. h, (λ ss h. h, tt))))
      nobody_stored
