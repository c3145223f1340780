-- ===== src/Sessions/Service.antt =====
-- The calls of the service. `meanwhile` is what others commit between a call's read and its write:
-- the lock on a user's rooms is given up after some attempts, so it is not relied on. Failures of the
-- database change nothing and are left out; the patching of metadata is an argument.
use xelma_backend.Base.{
  ℕ, Bool, true, false, ◌&&◌, not, Option, none, some, List, [], ◌∷◌, ◌++◌, ◌==◌, find, update,
  filter, if◌then◌else◌,
}
use xelma_backend.Sessions.Rooms.{mem, clamp_rooms, Session, session_row}

pub record ResumePayload : Type 0 where
  pub rooms : List ℕ
  pub metadata : Option ℕ
  pub last_seen_at : Option ℕ
  pub disconnected_at : Option ℕ

abbrev pub resume_of : Option Session → ResumePayload
resume_of none = record { rooms = []; metadata = none; last_seen_at = none; disconnected_at = none }
resume_of (some s) = record {
  rooms = s.rooms;
  metadata = s.metadata;
  last_seen_at = some s.last_seen_at;
  disconnected_at = s.disconnected_at;
}

abbrev pub connected : (now wallet socket : ℕ) → Session → Session
connected now wallet socket s = record s {
  wallet_address = wallet;
  socket_id = some socket;
  last_seen_at = now;
  disconnected_at = none;
}

abbrev pub new_session : (now user wallet socket : ℕ) → Session
new_session now user wallet socket = record {
  user_id = user;
  wallet_address = wallet;
  socket_id = some socket;
  rooms = [];
  metadata = none;
  connected_at = now;
  last_seen_at = now;
  disconnected_at = none;
}

abbrev pub upsert : Option Session → (now user wallet socket : ℕ) → List Session → List Session
upsert none now user wallet socket ss = ss ++ new_session now user wallet socket ∷ []
upsert (some s) now user wallet socket ss = update user (connected now wallet socket) ss

-- `recordConnect`
unfoldable pub record_connect :
    (meanwhile : List Session → List Session) (now user wallet socket : ℕ)
    → List Session
    → ResumePayload × List Session
record_connect meanwhile now user wallet socket ss = (
  resume_of (find user ss),
  upsert (find user (meanwhile ss)) now user wallet socket (meanwhile ss),
)

abbrev pub with_rooms : (now : ℕ) → List ℕ → Session → Session
with_rooms now rooms s = record s { rooms = rooms; last_seen_at = now }

abbrev pub is_empty : List ℕ → Bool
is_empty [] = true
is_empty (r ∷ rs) = false

abbrev pub merged_rooms : (db adapter : List ℕ) → List ℕ
merged_rooms db adapter = clamp_rooms (filter (λ r. mem r adapter) db ++ adapter)

-- Nothing is stale and nothing is missing.
abbrev pub is_consistent : (db adapter : List ℕ) → Bool
is_consistent db adapter =
    is_empty (filter (λ r. not (mem r adapter)) db)
    && is_empty (filter (λ r. not (mem r db)) adapter)

module _ (meanwhile : List Session → List Session) (now user : ℕ) where
  abbrev pub add_to : (room : ℕ) → Option Session → List Session → List Session
  add_to room none ss = ss
  add_to room (some s) ss =
      if mem room s.rooms
      then ss
      else update user (with_rooms now (clamp_rooms (s.rooms ++ room ∷ []))) (meanwhile ss)

  -- `addRoom`
  unfoldable pub add_room : (room : ℕ) → List Session → List Session
  add_room room ss = if room == 0 then ss else add_to room (find user ss) ss

  abbrev pub remove_from : (room : ℕ) → Option Session → List Session → List Session
  remove_from room none ss = ss
  remove_from room (some s) ss =
      update user (with_rooms now (filter (λ r. not (r == room)) s.rooms)) (meanwhile ss)

  -- `removeRoom`
  unfoldable pub remove_room : (room : ℕ) → List Session → List Session
  remove_room room ss = if room == 0 then ss else remove_from room (find user ss) ss

  abbrev pub reconcile_with :
      (adapter : List ℕ) → Option Session → List Session → List ℕ × List Session
  reconcile_with adapter none ss = (adapter, ss)
  reconcile_with adapter (some s) ss = if is_consistent s.rooms adapter then (s.rooms, ss) else (
    merged_rooms s.rooms adapter,
    update user (with_rooms now (merged_rooms s.rooms adapter)) (meanwhile ss),
  )

  -- `reconcileRooms`
  unfoldable pub reconcile_rooms : (adapter : List ℕ) → List Session → List ℕ × List Session
  reconcile_rooms adapter ss = reconcile_with adapter (find user ss) ss

  abbrev pub with_metadata : Option ℕ → Session → Session
  with_metadata none s = record s { last_seen_at = now }
  with_metadata (some m) s = record s { metadata = some m; last_seen_at = now }

  abbrev pub patch_found :
      (patch : Option ℕ → Option ℕ) → Option Session → List Session → List Session
  patch_found patch none ss = ss
  patch_found patch (some s) ss = update user (with_metadata (patch s.metadata)) (meanwhile ss)

  -- `patchMetadata`; `patch` merges and clamps, and answers nothing for a blob that is too large.
  unfoldable pub patch_metadata : (patch : Option ℕ → Option ℕ) → List Session → List Session
  patch_metadata patch ss = patch_found patch (find user ss) ss

abbrev pub disconnected : (now : ℕ) → Session → Session
disconnected now s = record s { disconnected_at = some now; last_seen_at = now; socket_id = none }

-- `recordDisconnect`
unfoldable pub record_disconnect : (now user : ℕ) → List Session → List Session
record_disconnect now user ss = update user (disconnected now) ss
