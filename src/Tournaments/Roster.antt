-- ===== src/Tournaments/Roster.antt =====
-- The roster of a tournament under every call that writes.
use xelma_backend.Base.{
  ◌⊎◌, ℕ, ◌≡◌, ◌+◌, ◌≤◌, ◌<◌, ◌==◌, refl, Bool, true, false, some, List, [], ◌∷◌, ◌++◌, Result,
  find, update, find-update, sum_by, sum_by-append, arith, Option-cases, Bool-cases, inl, inr,
  if◌then◌else◌, leb, ltb,
}
use xelma_backend.Schema.{user_row}
use xelma_backend.Tournaments.Rows.{
  TournamentStatus, Tournament, tournament_row, TournamentParticipant, Hall, TournamentError,
}
use xelma_backend.Tournaments.Calls.{
  one_more, add_entry, TournamentInput, new_tournament, create_tournament, with_status, set_status,
}

abbrev one_if_in : (tournament : ℕ) → TournamentParticipant → ℕ
one_if_in tournament p = if p.tournament_id == tournament then 1 else 0

abbrev pub entries : (tournament : ℕ) → Hall → ℕ
entries tournament h = sum_by (one_if_in tournament) h.participants

-- The counter of a tournament is the number of its participants, within the maximum; and no row
-- speaks of an identifier that is not made up yet.
pub record HasRosters (h : Hall) : Type 0 where
  pub counted :
      (id : ℕ) (t : Tournament)
      → find id h.tournaments ≡ some t
      → (t.current_participants ≡ entries id h) × (t.current_participants ≤ t.max_participants)
  pub made_up : (id : ℕ) (t : Tournament) → find id h.tournaments ≡ some t → id < h.next_id
  pub unused : (id : ℕ) → h.next_id ≤ id → entries id h ≡ 0

-- A row that is found after a write was there before it.
find-update_inv :
    (k id : ℕ) (f : Tournament → Tournament) (ts : List Tournament) (u : Tournament)
    → ((t : Tournament) → (f t).id ≡ t.id)
    → find k (update id f ts) ≡ some u
    → (t : Tournament) × (find k ts ≡ some t) × (u ≡ (if k == id then f t else t))
find-update_inv k id f ts u keeps found = elim (Option-cases (find k ts)) [
  | inl gone ↦ absurd (ground (arith, find-update k id f ts keeps))
  | inr (t, there) ↦ (t, there, ground (arith, find-update k id f ts keeps))
]

find-append_inv :
    (k : ℕ) (ts : List Tournament) (n u : Tournament)
    → find k (ts ++ n ∷ []) ≡ some u
    → (find k ts ≡ some u) ⊎ ((n.id ≡ k) × (u ≡ n))
find-append_inv k [] n u found = ground arith
find-append_inv k (t ∷ ts) n u found = elim (Bool-cases (t.id == k)) [
  | inl here ↦ inl (ground arith)
  | inr other ↦ elim (find-append_inv k ts n u (ground arith)) [
    | inl old ↦ inl (ground arith)
    | inr new ↦ inr new
  ]
]

pub either :
    {A : Type 0} (b : Bool) (x y : Result TournamentError A × Hall)
    → HasRosters x.1
    → HasRosters y.1
    → HasRosters (if b then x else y).1
either true x y p q = p
either false x y p q = q

module _ (h : Hall) (well : HasRosters h) where
  pub add_entry-HasRosters :
      (user id : ℕ) (t : Tournament)
      → find id h.tournaments ≡ some t
      → t.current_participants < t.max_participants
      → HasRosters (add_entry user id h)
  add_entry-HasRosters user id t there room =
      let row : TournamentParticipant = record {
        id = h.next_id;
        tournament_id = id;
        user_id = user;
      } in
      record {
        counted = λ k u found.
            let (v, was, is) = find-update_inv k id one_more h.tournaments u (λ t. refl) found in
            let old = well.counted k v was in
            ground (arith, old, is, sum_by-append (one_if_in k) h.participants (row ∷ []));
        made_up = λ k u found.
            let (v, was, is) = find-update_inv k id one_more h.tournaments u (λ t. refl) found in
            omega (arith, well.made_up k v was);
        unused = λ k le.
            let before = well.made_up id t there in
            let none_yet = well.unused k (omega arith) in
            ground (arith, none_yet, before, sum_by-append (one_if_in k) h.participants (row ∷ []));
      }

  pub set_status-HasRosters : (id : ℕ) (s : TournamentStatus) → HasRosters (set_status id s h).1
  set_status-HasRosters id s = elim (Option-cases (find id h.tournaments)) [
    | inl gone ↦ rw (gone, set_status) well
    | inr (t, there) ↦
        rw (there, set_status)
          (record {
            counted = λ k u found.
                let (v, was, is) =
                  find-update_inv k id (with_status s) h.tournaments u (λ t. refl) found in
                let old = well.counted k v was in ground (arith, old, is);
            made_up = λ k u found.
                let (v, was, is) =
                  find-update_inv k id (with_status s) h.tournaments u (λ t. refl) found in
                well.made_up k v was;
            unused = well.unused;
          })
  ]

  pub create_tournament-HasRosters : (i : TournamentInput) → HasRosters (create_tournament i h).1
  unfolding create_tournament
  create_tournament-HasRosters i =
      either (ltb i.max_participants 1) _ _ well
        (either (ltb i.rounds 1) _ _ well (either (leb i.end_time i.start_time) _ _ well made))
    where
      made : HasRosters (record h {
        tournaments = h.tournaments ++ new_tournament h.next_id i ∷ [];
        next_id = h.next_id + 1;
      })
      made = record {
        counted = λ k u found.
            elim (find-append_inv k h.tournaments (new_tournament h.next_id i) u found) [
              | inl old ↦ well.counted k u old
              | inr (its, is) ↦
                  let none_yet = well.unused k (omega arith) in (ground arith, ground arith)
            ];
        made_up = λ k u found.
            elim (find-append_inv k h.tournaments (new_tournament h.next_id i) u found) [
              | inl old ↦ omega (arith, well.made_up k u old)
              | inr (its, is) ↦ omega arith
            ];
        unused = λ k le. well.unused k (omega arith);
      }
