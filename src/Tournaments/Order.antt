-- ===== src/Tournaments/Order.antt =====
-- The standings do not depend on the order in which the database returns the participants.
use xelma_backend.Base.{
  ℕ, ◌≡◌, ◌≢◌, ◌==◌, refl, ap, sym, ◌∙◌, Bool, true, false, Option, List, [], ◌∷◌, map, filter,
  if◌then◌else◌, arith, Bool-cases, inl, inr, not,
}
use xelma_backend.Tournaments.Rows.{TournamentParticipant}
use xelma_backend.Tournaments.Standings.{
  TournamentStanding, UserStats, goes_after, insert_standing, sort_standings, standing_of,
  tally_standings, rank_from,
}

-- Two lists with the same participants, whose identifiers differ from each other.
pub data Reordered : List TournamentParticipant → List TournamentParticipant → Type 0 where
  unchanged : {ps : List TournamentParticipant} → Reordered ps ps
  swapped :
      {p q : TournamentParticipant} {ps : List TournamentParticipant}
      → p.id ≢ q.id
      → Reordered (p ∷ q ∷ ps) (q ∷ p ∷ ps)
  below :
      {p : TournamentParticipant} {ps qs : List TournamentParticipant}
      → Reordered ps qs
      → Reordered (p ∷ ps) (p ∷ qs)
  andthen :
      {ps qs rs : List TournamentParticipant} → Reordered ps qs → Reordered qs rs → Reordered ps rs

goes_after_total :
    (a b : TournamentStanding)
    → a.participant_id ≢ b.participant_id
    → goes_after a b ≡ not (goes_after b a)
goes_after_total a b ne = ground arith

goes_after_trans :
    (a b c : TournamentStanding)
    → goes_after a b ≡ true
    → goes_after b c ≡ true
    → goes_after a c ≡ true
goes_after_trans a b c h k = ground arith

not_after_trans :
    (a b c : TournamentStanding)
    → goes_after a b ≡ false
    → goes_after b c ≡ false
    → goes_after a c ≡ false
not_after_trans a b c h k = ground arith

insert_here :
    (a x : TournamentStanding) (xs : List TournamentStanding)
    → goes_after a x ≡ false
    → insert_standing a (x ∷ xs) ≡ a ∷ x ∷ xs
insert_here a x xs e = rw (e, insert_standing) refl

insert_further :
    (a x : TournamentStanding) (xs : List TournamentStanding)
    → goes_after a x ≡ true
    → insert_standing a (x ∷ xs) ≡ x ∷ insert_standing a xs
insert_further a x xs e = rw (e, insert_standing) refl

-- Two that go before the rest.
insert_both_here :
    (a b : TournamentStanding) (xs : List TournamentStanding)
    → a.participant_id ≢ b.participant_id
    → insert_standing a xs ≡ a ∷ xs
    → insert_standing b xs ≡ b ∷ xs
    → insert_standing a (b ∷ xs) ≡ insert_standing b (a ∷ xs)
insert_both_here a b xs ne ea eb = elim (Bool-cases (goes_after a b)) [
  | inl after ↦
      insert_further a b xs after
      ∙ (ap (λ ys. b ∷ ys) ea ∙ sym (insert_here b a xs (ground (arith, goes_after_total a b ne))))
  | inr before ↦
      insert_here a b xs before
      ∙ (ap (λ ys. a ∷ ys) (sym eb)
          ∙ sym (insert_further b a xs (ground (arith, goes_after_total a b ne))))
]

-- One that goes before the rest, and one that goes into it.
insert_here_further :
    (a b x : TournamentStanding) (xs : List TournamentStanding)
    → a.participant_id ≢ b.participant_id
    → goes_after a x ≡ false
    → goes_after b x ≡ true
    → insert_standing a (x ∷ insert_standing b xs) ≡ insert_standing b (a ∷ x ∷ xs)
insert_here_further a b x xs ne ea eb =
    insert_here a x (insert_standing b xs) ea
    ∙ (ap (λ ys. a ∷ ys) (sym (insert_further b x xs eb))
        ∙ sym (insert_further b a (x ∷ xs) (b_after_a)))
  where
    b_after_a : goes_after b a ≡ true
    b_after_a = elim (Bool-cases (goes_after b a)) [
      | inl after ↦ after
      | inr before ↦ absurd (ground (arith, not_after_trans b a x before ea))
    ]

insert_standing_comm :
    (a b : TournamentStanding) (xs : List TournamentStanding)
    → a.participant_id ≢ b.participant_id
    → insert_standing a (insert_standing b xs) ≡ insert_standing b (insert_standing a xs)
insert_standing_comm a b [] ne = insert_both_here a b [] ne refl refl
insert_standing_comm a b (x ∷ xs) ne = elim (Bool-cases (goes_after a x)) [
  | inl ea ↦ elim (Bool-cases (goes_after b x)) [
    | inl eb ↦
        ap (insert_standing a) (insert_further b x xs eb)
        ∙ (insert_further a x (insert_standing b xs) ea
            ∙ (ap (λ ys. x ∷ ys) (insert_standing_comm a b xs ne)
                ∙ (sym (insert_further b x (insert_standing a xs) eb)
                    ∙ ap (insert_standing b) (sym (insert_further a x xs ea)))))
    | inr eb ↦
        ap (insert_standing a) (insert_here b x xs eb)
        ∙ (sym (insert_here_further b a x xs (λ e. ne (sym e)) eb ea)
            ∙ ap (insert_standing b) (sym (insert_further a x xs ea)))
  ]
  | inr ea ↦ elim (Bool-cases (goes_after b x)) [
    | inl eb ↦
        ap (insert_standing a) (insert_further b x xs eb)
        ∙ (insert_here_further a b x xs ne ea eb
            ∙ ap (insert_standing b) (sym (insert_here a x xs ea)))
    | inr eb ↦
        ap (insert_standing a) (insert_here b x xs eb)
        ∙ (insert_both_here a b (x ∷ xs) ne (insert_here a x xs ea) (insert_here b x xs eb)
            ∙ ap (insert_standing b) (sym (insert_here a x xs ea)))
  ]
]

module _ (stats_of : (user_id : ℕ) → Option UserStats) (tournament : ℕ) where
  abbrev takes_part : TournamentParticipant → Bool
  takes_part p = p.tournament_id == tournament

  abbrev sorted : List TournamentParticipant → List TournamentStanding
  sorted ps = sort_standings (map (standing_of stats_of) (filter takes_part ps))

  standing_of-participant_id :
      (p : TournamentParticipant) → (standing_of stats_of p).participant_id ≡ p.id
  standing_of-participant_id p = ground arith

  sorted_swapped :
      (p q : TournamentParticipant) (ps : List TournamentParticipant)
      → p.id ≢ q.id
      → sorted (p ∷ q ∷ ps) ≡ sorted (q ∷ p ∷ ps)
  sorted_swapped p q ps ne =
      let comm =
        insert_standing_comm (standing_of stats_of p) (standing_of stats_of q) (sorted ps)
          (λ e. ne (sym (standing_of-participant_id p) ∙ (e ∙ standing_of-participant_id q))) in
      by_filter (takes_part p) (takes_part q) comm
    where
      filtered : List TournamentParticipant
      filtered = filter takes_part ps

      by_filter :
          (b c : Bool)
          → insert_standing
              (standing_of stats_of p)
              (insert_standing (standing_of stats_of q) (sorted ps))
            ≡ insert_standing
                (standing_of stats_of q)
                (insert_standing (standing_of stats_of p) (sorted ps))
          → sort_standings (
              map (standing_of stats_of) (
                if b
                then p ∷ (if c then q ∷ filtered else filtered)
                else if c
                then q ∷ filtered
                else filtered))
            ≡ sort_standings (
                map (standing_of stats_of) (
                  if c
                  then q ∷ (if b then p ∷ filtered else filtered)
                  else if b
                  then p ∷ filtered
                  else filtered))
      by_filter true true comm = comm
      by_filter true false comm = refl
      by_filter false true comm = refl
      by_filter false false comm = refl

  sorted_below :
      (p : TournamentParticipant) (ps qs : List TournamentParticipant)
      → sorted ps ≡ sorted qs
      → sorted (p ∷ ps) ≡ sorted (p ∷ qs)
  sorted_below p ps qs e = elim (Bool-cases (takes_part p)) [
    | inl in_it ↦ ground (arith, e)
    | inr not_in_it ↦ ground (arith, e)
  ]

  sorted-Reordered : {ps qs : List TournamentParticipant} → Reordered ps qs → sorted ps ≡ sorted qs
  sorted-Reordered unchanged = refl
  sorted-Reordered (swapped {p} {q} {ps} ne) = sorted_swapped p q ps ne
  sorted-Reordered (below {p} {ps} {qs} r) = sorted_below p ps qs (sorted-Reordered r)
  sorted-Reordered (andthen r s) = sorted-Reordered r ∙ sorted-Reordered s

  -- If the participants come in another order, the standings, with their ranks, are the same.
  pub tally_standings-Reordered :
      (ps qs : List TournamentParticipant)
      → Reordered ps qs
      → tally_standings stats_of tournament ps ≡ tally_standings stats_of tournament qs
  unfolding tally_standings
  tally_standings-Reordered ps qs r = ap (rank_from 1) (sorted-Reordered r)
