-- ===== src/Collect/Votes/Refines.antt =====
-- `VoteCollector::add` of src/collectors.rs as an update of the map that `get_voteset` reads.
use bft_rs.Prelude.{
  ℕ, ◌<◌, ◌≡◌, ◌≢◌, refl, sym, ap, ◌∙◌, Bool, true, false, ◌&&◌, none, some, ok, arith, nat_beq,
  nat_beq_iff, Bool-cases, inl, inr,
}
use bft_rs.Objects.{SignedVote, VoteType}
use bft_rs.Objects.Kinds.{vote_type_eq, vote_type_beq}
use bft_rs.Env.{Env, LruLaws, lru_peek}
use bft_rs.Collect.Cache.{KeptOrLost, key-cases}
use bft_rs.Collect.VoteSet
use bft_rs.Collect.VoteSet.{VoteSet}
use bft_rs.Collect.Votes.{
  RoundCollector, VoteCollector, add_round, add_cached, add_vote, get_voteset, round_new,
  collector_new, cache_n,
}
use bft_rs.Collect.Votes.View.{
  or_new, view, view_rounds, view_round, get_voteset-view, add_round_self, add_round_other,
  add_round-capacity, add-new, HasRoom,
}

-- Whether a vote belongs to the set of this height, round and type.
abbrev pub is_for : SignedVote → ℕ → ℕ → VoteType → Bool
is_for v height round t =
    nat_beq v.vote.height height && (nat_beq v.vote.round round && vote_type_beq v.vote.vote_type t)

module _ ⦃env : Env⦄ (laws : LruLaws env) where
  round_new-view : (round : ℕ) (t : VoteType) → view_round round t round_new ≡ none
  round_new-view round t = rw (laws.peek_new round cache_n) refl

  round_new-capacity : 0 < laws.capacity round_new.round_votes
  round_new-capacity = rw (laws.capacity_new cache_n) (omega arith)

  -- A vote that is the first of its height.
  first_of_height :
      (v : SignedVote) (weight : ℕ)
      → ((add_round v weight round_new).0 ≡ ok tt)
        × (view_round v.vote.round v.vote.vote_type (add_round v weight round_new).1
            ≡ some (VoteSet.add v weight VoteSet.new).1)
  first_of_height v weight =
      let (result, entry) = add_round_self laws v weight round_new round_new-capacity in
      let e = round_new-view v.vote.round v.vote.vote_type in
      (rw e at result ∙ add-new v weight, rw e at entry)

  -- The caches of `VoteCollector::add`.
  abbrev AddsTo : SignedVote → ℕ → VoteCollector → VoteCollector → Type 0
  AddsTo v weight c c' =
      (view v.vote.height v.vote.round v.vote.vote_type c'
        ≡ some
            (VoteSet.add v weight (or_new (view v.vote.height v.vote.round v.vote.vote_type c))).1)
      × ((height round : ℕ) (t : VoteType)
          → is_for v height round t ≡ false
          → KeptOrLost (view height round t c) (view height round t c'))

  abbrev after : SignedVote → ℕ → VoteCollector → VoteCollector
  after v weight c = record c { votes = (add_cached v weight c.votes).1 }

  add_cached_result :
      (v : SignedVote) (weight : ℕ) (c : VoteCollector)
      → HasRoom laws c
      → (add_cached v weight c.votes).0
        ≡ (VoteSet.add v weight (or_new (view v.vote.height v.vote.round v.vote.vote_type c))).0
  unfolding add_cached
  add_cached_result v weight c room = elim (key-cases laws v.vote.height c.votes) [
    | inl (e, absent) ↦ rw (e, absent) ((first_of_height v weight).0 ∙ sym (add-new v weight))
    | inr (r, e, present) ↦
        rw (e, present)
          (add_round_self laws v weight r.0 (room.rounds v.vote.height r.0 (rw e refl))).0
  ]

  add_cached_self :
      (v : SignedVote) (weight : ℕ) (c : VoteCollector)
      → HasRoom laws c
      → view v.vote.height v.vote.round v.vote.vote_type (after v weight c)
        ≡ some
            (VoteSet.add v weight (or_new (view v.vote.height v.vote.round v.vote.vote_type c))).1
  unfolding add_cached
  add_cached_self v weight c room = elim (key-cases laws v.vote.height c.votes) [
    | inl (e, absent) ↦
        let (result, entry) = first_of_height v weight in
        let there =
          laws.peek_insert_self v.vote.height (add_round v weight round_new).1 c.votes
            room.heights in
        rw (e, absent, result, there) entry
    | inr (r, e, present) ↦
        let (result, entry) =
          add_round_self laws v weight r.0 (room.rounds v.vote.height r.0 (rw e refl)) in
        let there =
          laws.peek_write v.vote.height v.vote.height c.votes r (add_round v weight r.0).1 e in
        let same : nat_beq v.vote.height v.vote.height ≡ true = ground arith in
        rw (e, present, there, same) entry
  ]

  add_cached_other :
      (v : SignedVote) (weight : ℕ) (c : VoteCollector) (height round : ℕ) (t : VoteType)
      → HasRoom laws c
      → is_for v height round t ≡ false
      → KeptOrLost (view height round t c) (view height round t (after v weight c))
  unfolding add_cached
  add_cached_other v weight c height round t room differ =
      elim (key-cases laws v.vote.height c.votes) [
        | inl (e, absent) ↦
            let fresh = (first_of_height v weight).0 in
            elim (Bool-cases (nat_beq v.vote.height height)) [
              | inl here ↦
                  let at : v.vote.height ≡ height = (nat_beq_iff v.vote.height height).0 here in
                  let there =
                    laws.peek_insert_self v.vote.height (add_round v weight round_new).1 c.votes
                      room.heights in
                  let empty : view_round round t (add_round v weight round_new).1 ≡ none =
                    elim (add_round_other laws v weight round_new round t round_new-capacity
                      (rw here at differ)) [
                        | inl kept ↦ kept ∙ round_new-view round t
                        | inr lost ↦ lost
                      ] in
                  inr (rw (e, absent, fresh, ← at, there) empty)
              | inr there ↦
                  let ne : v.vote.height ≢ height = λ at. ground arith in
                  elim (laws.peek_insert_other v.vote.height height (add_round v weight round_new).1
                    c.votes ne) [
                      | inl kept ↦ inl (rw (e, absent, fresh, kept) refl)
                      | inr lost ↦ inr (rw (e, absent, fresh, lost) refl)
                    ]
            ]
        | inr (r, e, present) ↦
            let write =
              laws.peek_write v.vote.height height c.votes r (add_round v weight r.0).1 e in
            elim (Bool-cases (nat_beq v.vote.height height)) [
              | inl here ↦
                  let at : v.vote.height ≡ height = (nat_beq_iff v.vote.height height).0 here in
                  let before : lru_peek height c.votes ≡ some r.0 = rw (← at, e) refl in
                  let rest =
                    add_round_other laws v weight r.0 round t
                      (room.rounds v.vote.height r.0 (rw e refl)) (rw here at differ) in
                  rw (e, present, write, here, before) rest
              | inr there ↦ inl (rw (e, present, write, there) refl)
            ]
      ]

  added-capacity :
      (v : SignedVote) (weight : ℕ) (rc : RoundCollector)
      → 0 < laws.capacity rc.round_votes
      → 0 < laws.capacity (add_round v weight rc).1.round_votes
  added-capacity v weight rc room = rw (add_round-capacity laws v weight rc) room

  add_cached-HasRoom :
      (v : SignedVote) (weight : ℕ) (c : VoteCollector)
      → HasRoom laws c
      → HasRoom laws (after v weight c)
  unfolding add_cached
  add_cached-HasRoom v weight c room = elim (key-cases laws v.vote.height c.votes) [
    | inl (e, absent) ↦
        let fresh = (first_of_height v weight).0 in
        let new_rc = (add_round v weight round_new).1 in
        record {
          heights =
              rw (e, absent, fresh, laws.capacity_insert v.vote.height new_rc c.votes) room.heights;
          rounds = λ height rc found.
              let found' = rw (e, absent, fresh) at found in
              elim (Bool-cases (nat_beq v.vote.height height)) [
                | inl here ↦
                    let at : v.vote.height ≡ height = (nat_beq_iff v.vote.height height).0 here in
                    let there = laws.peek_insert_self v.vote.height new_rc c.votes room.heights in
                    let same : some new_rc ≡ some rc = sym there ∙ (rw (← at) at found') in
                    let e' : new_rc ≡ rc = ground arith in
                    rw (← e') (added-capacity v weight round_new round_new-capacity)
                | inr there ↦
                    let ne : v.vote.height ≢ height = λ at. ground arith in
                    elim (laws.peek_insert_other v.vote.height height new_rc c.votes ne) [
                      | inl kept ↦ room.rounds height rc (sym kept ∙ found')
                      | inr lost ↦ absurd (ground (arith, lost, found'))
                    ]
              ];
        }
    | inr (r, e, present) ↦
        let old_room = room.rounds v.vote.height r.0 (rw e refl) in
        let new_rc = (add_round v weight r.0).1 in
        record {
          heights =
              rw (e, present, laws.capacity_write v.vote.height c.votes r new_rc e) room.heights;
          rounds = λ height rc found.
              let found' = rw (e, present) at found in
              let write = laws.peek_write v.vote.height height c.votes r new_rc e in
              elim (Bool-cases (nat_beq v.vote.height height)) [
                | inl here ↦
                    let same : some new_rc ≡ some rc = rw here at (sym write) ∙ found' in
                    let e' : new_rc ≡ rc = ground arith in
                    rw (← e') (added-capacity v weight r.0 old_room)
                | inr there ↦ room.rounds height rc (rw there at (sym write) ∙ found')
              ];
        }
  ]

  -- `VoteCollector::add` has the result of `VoteSet::add` on the set that `get_voteset` gives for the
  -- vote, or on a new one, and from then on `get_voteset` gives that set with the vote added. Any
  -- other set is as before or forgotten, and the caches keep their room.
  pub add_vote-get_voteset :
      (v : SignedVote) (weight current : ℕ) (c : VoteCollector)
      → HasRoom laws c
      → let c' = (add_vote v weight current c).1 in
        let set : VoteSet = or_new (get_voteset v.vote.height v.vote.round v.vote.vote_type c).0 in
        ((add_vote v weight current c).0 ≡ (VoteSet.add v weight set).0)
        × ((get_voteset v.vote.height v.vote.round v.vote.vote_type c').0
            ≡ some (VoteSet.add v weight set).1)
        × ((height round : ℕ) (t : VoteType)
            → is_for v height round t ≡ false
            → KeptOrLost (get_voteset height round t c).0 (get_voteset height round t c').0)
        × HasRoom laws c'
  unfolding add_vote
  add_vote-get_voteset v weight current c room =
      let here = get_voteset-view v.vote.height v.vote.round v.vote.vote_type in
      let c' = (add_vote v weight current c).1 in
      let caches : c'.votes ≡ (add_cached v weight c.votes).1 = ground arith in
      let read : (height round : ℕ) (t : VoteType)
          → (get_voteset height round t c').0 ≡ view height round t (after v weight c) =
        λ height round t.
          get_voteset-view height round t c'
          ∙ ap (λ m. view_rounds round t (lru_peek height m)) caches in
      let result : (add_vote v weight current c).0 ≡ (add_cached v weight c.votes).0 =
        ground arith in
      let kept = add_cached-HasRoom v weight c room in
      (
        result ∙ (rw (here c) (add_cached_result v weight c room)),
        read v.vote.height v.vote.round v.vote.vote_type
            ∙ (rw (here c) (add_cached_self v weight c room)),
        (λ height round t differ.
            rw (read height round t, get_voteset-view height round t c)
              (add_cached_other v weight c height round t room differ)),
        record {
          heights = rw caches kept.heights;
          rounds = λ h rc e. kept.rounds h rc (rw caches at e);
        },
      )

  -- A new collector has room.
  pub collector_new-HasRoom : HasRoom laws collector_new
  collector_new-HasRoom = record {
    heights = rw (laws.capacity_new cache_n) (omega arith);
    rounds = λ h rc found.
        let same : none ≡ some rc = sym (laws.peek_new h cache_n) ∙ found in absurd (ground arith);
  }
