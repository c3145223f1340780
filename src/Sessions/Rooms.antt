-- ===== src/Sessions/Rooms.antt =====
-- `clampRooms`, and the table of sessions. Names of rooms are numbers, and 0 is the empty string.
use xelma_backend.Base.{
  ℕ, Bool, false, ◌||◌, Option, List, [], ◌∷◌, ◌++◌, ◌==◌, leb, length, if◌then◌else◌, Row,
}

-- `includes`
abbrev pub mem : ℕ → List ℕ → Bool
mem r [] = false
mem r (x ∷ xs) = r == x || mem r xs

abbrev pub max_persisted_rooms : ℕ
max_persisted_rooms = 32

-- The loop of `clampRooms`; what was put out is what was seen.
unfoldable pub clamp_from : (out : List ℕ) → List ℕ → List ℕ
clamp_from out [] = out
clamp_from out (r ∷ rs) =
    let skip = clamp_from out rs in
    let more = clamp_from (out ++ r ∷ []) rs in
    if r == 0 || mem r out
    then skip
    else if leb max_persisted_rooms (length (out ++ r ∷ []))
    then out ++ r ∷ []
    else more

unfoldable pub clamp_rooms : List ℕ → List ℕ
clamp_rooms rooms = clamp_from [] rooms

pub record Session : Type 0 where
  pub user_id : ℕ
  pub wallet_address : ℕ
  pub socket_id : Option ℕ
  pub rooms : List ℕ
  pub metadata : Option ℕ
  pub connected_at : ℕ
  pub last_seen_at : ℕ
  pub disconnected_at : Option ℕ

instance abbrev pub session_row : Row Session
session_row = record { key = λ s. s.user_id }
