-- ===== src/Collect/Votes/View.antt =====
-- `VoteCollector` of src/collectors.rs as a map from a height, a round and a type to a vote set, of
-- which the caches may forget entries.
use bft_rs.Prelude.{
  ℕ, ◌<◌, ◌≡◌, ◌≢◌, refl, sym, ◌∙◌, true, false, ◌&&◌, Option, none, some, [], ok, arith, lookup,
  lookup_or, lookup-insert, nat_beq, nat_beq_iff, Bool-cases, Option-cases, inl, inr,
}
use bft_rs.Objects.{SignedVote, VoteType}
use bft_rs.Objects.Kinds.{vote_type_eq, vote_type_beq_iff, vote_type_beq}
use bft_rs.Env.{Env, LruLaws, lru_peek}
use bft_rs.Collect.Cache.{KeptOrLost, key-cases}
use bft_rs.Collect.VoteSet
use bft_rs.Collect.VoteSet.{VoteSet, StepCollector}
use bft_rs.Collect.Votes.{RoundCollector, VoteCollector, add_round, get_voteset_round, get_voteset}

-- The vote set to which a vote is added: the one that is there, or a new one.
abbrev pub or_new : Option VoteSet → VoteSet
or_new none = VoteSet.new
or_new (some s) = s

add_step_self :
    (v : SignedVote) (weight : ℕ) (s : StepCollector)
    → (((VoteSet.add_step v weight s).0
          ≡ (VoteSet.add v weight (or_new (lookup v.vote.vote_type s))).0)
        × (lookup v.vote.vote_type (VoteSet.add_step v weight s).1
            ≡ some (VoteSet.add v weight (or_new (lookup v.vote.vote_type s))).1))
unfolding VoteSet.add_step
add_step_self v weight s = elim (Option-cases (lookup v.vote.vote_type s)) [
  | inl e ↦ rw e (
      ground (
        arith,
        lookup-insert v.vote.vote_type v.vote.vote_type (VoteSet.add v weight VoteSet.new).1 s,
        vote_type_beq_iff v.vote.vote_type v.vote.vote_type,
      ))
  | inr (old, e) ↦ rw e (
      ground (
        arith,
        lookup-insert v.vote.vote_type v.vote.vote_type (VoteSet.add v weight old).1 s,
        vote_type_beq_iff v.vote.vote_type v.vote.vote_type,
      ))
]

add_step_other :
    (v : SignedVote) (weight : ℕ) (s : StepCollector) (t : VoteType)
    → vote_type_beq v.vote.vote_type t ≡ false
    → lookup t (VoteSet.add_step v weight s).1 ≡ lookup t s
unfolding VoteSet.add_step
add_step_other v weight s t other =
    lookup-insert v.vote.vote_type t
      (VoteSet.add v weight (lookup_or v.vote.vote_type VoteSet.new s)).1 s
    ∙ rw other refl

-- A vote that is the first of its set is added.
pub add-new : (v : SignedVote) (weight : ℕ) → (VoteSet.add v weight VoteSet.new).0 ≡ ok tt
unfolding VoteSet.add
add-new v weight = refl

module _ ⦃env : Env⦄ where
  open env use {LruCache, lru_contains_key, lru_get_mut}

  abbrev pub view_steps : VoteType → Option StepCollector → Option VoteSet
  view_steps t none = none
  view_steps t (some s) = lookup t s

  -- The vote set of a round and a type.
  abbrev pub view_round : ℕ → VoteType → RoundCollector → Option VoteSet
  view_round round t c = view_steps t (lru_peek round c.round_votes)

  abbrev pub view_rounds : ℕ → VoteType → Option RoundCollector → Option VoteSet
  view_rounds round t none = none
  view_rounds round t (some c) = view_round round t c

  -- The vote set of a height, a round and a type.
  abbrev pub view : ℕ → ℕ → VoteType → VoteCollector → Option VoteSet
  view height round t c = view_rounds round t (lru_peek height c.votes)

  get_voteset_round-view :
      (round : ℕ) (t : VoteType) (c : RoundCollector)
      → (get_voteset_round round t c).0 ≡ view_round round t c
  unfolding get_voteset_round
  get_voteset_round-view round t c = elim (Option-cases (lru_get_mut round c.round_votes)) [
    | inl e ↦ rw (get_voteset_round, e) refl
    | inr (r, e) ↦ rw (get_voteset_round, e) refl
  ]

  -- `get_voteset` gives the vote set of the view.
  pub get_voteset-view :
      (height round : ℕ) (t : VoteType) (c : VoteCollector)
      → (get_voteset height round t c).0 ≡ view height round t c
  unfolding get_voteset
  get_voteset-view height round t c = elim (Option-cases (lru_get_mut height c.votes)) [
    | inl e ↦ rw (get_voteset, e) refl
    | inr (r, e) ↦ rw (get_voteset, e) (get_voteset_round-view round t r.0)
  ]

  module _ (laws : LruLaws env) where
    pub add_round_self :
        (v : SignedVote) (weight : ℕ) (c : RoundCollector)
        → 0 < laws.capacity c.round_votes
        → let set = or_new (view_round v.vote.round v.vote.vote_type c) in
          ((add_round v weight c).0 ≡ (VoteSet.add v weight set).0)
          × (view_round v.vote.round v.vote.vote_type (add_round v weight c).1
              ≡ some (VoteSet.add v weight set).1)
    unfolding add_round
    add_round_self v weight c room = elim (key-cases laws v.vote.round c.round_votes) [
      | inl (e, absent) ↦
          let (result, entry) = add_step_self v weight [] in
          let fresh = result ∙ add-new v weight in
          let there =
            laws.peek_insert_self v.vote.round (VoteSet.add_step v weight []).1 c.round_votes
              room in
          rw (e, absent, fresh) (sym (add-new v weight), rw there entry)
      | inr (r, e, present) ↦
          let (result, entry) = add_step_self v weight r.0 in
          let there =
            laws.peek_write v.vote.round v.vote.round c.round_votes r
              (VoteSet.add_step v weight r.0).1 e in
          let same : nat_beq v.vote.round v.vote.round ≡ true = ground arith in
          rw (e, present) (result, rw (there, same) entry)
    ]

    -- The sets of other types or rounds are as before, or forgotten.
    pub add_round_other :
        (v : SignedVote) (weight : ℕ) (c : RoundCollector) (round : ℕ) (t : VoteType)
        → 0 < laws.capacity c.round_votes
        → (nat_beq v.vote.round round && vote_type_beq v.vote.vote_type t) ≡ false
        → KeptOrLost (view_round round t c) (view_round round t (add_round v weight c).1)
    unfolding add_round
    add_round_other v weight c round t room differ =
        elim (key-cases laws v.vote.round c.round_votes) [
          | inl (e, absent) ↦
              let (result, entry) = add_step_self v weight [] in
              let fresh = result ∙ add-new v weight in
              elim (Bool-cases (nat_beq v.vote.round round)) [
                | inl here ↦
                    let at : v.vote.round ≡ round = (nat_beq_iff v.vote.round round).0 here in
                    let there =
                      laws.peek_insert_self v.vote.round (VoteSet.add_step v weight []).1
                        c.round_votes room in
                    let lost : lookup t (VoteSet.add_step v weight []).1 ≡ none =
                      add_step_other v weight [] t (rw here at differ) in
                    inr (rw (e, absent, fresh, ← at, there) lost)
                | inr there ↦
                    let ne : v.vote.round ≢ round = λ at. ground arith in
                    elim (laws.peek_insert_other v.vote.round round (VoteSet.add_step v weight []).1
                      c.round_votes ne) [
                        | inl kept ↦ inl (rw (e, absent, fresh, kept) refl)
                        | inr lost ↦ inr (rw (e, absent, fresh, lost) refl)
                      ]
              ]
          | inr (r, e, present) ↦
              let write =
                laws.peek_write v.vote.round round c.round_votes r (VoteSet.add_step v weight r.0).1
                  e in
              inl (elim (Bool-cases (nat_beq v.vote.round round)) [
                | inl here ↦
                    let at : v.vote.round ≡ round = (nat_beq_iff v.vote.round round).0 here in
                    let before : lru_peek round c.round_votes ≡ some r.0 = rw (← at, e) refl in
                    rw (e, present, write, here, before)
                      (add_step_other v weight r.0 t (rw here at differ))
                | inr there ↦ rw (e, present, write, there) refl
              ])
        ]

    pub add_round-capacity :
        (v : SignedVote) (weight : ℕ) (c : RoundCollector)
        → laws.capacity (add_round v weight c).1.round_votes ≡ laws.capacity c.round_votes
    unfolding add_round
    add_round-capacity v weight c = elim (key-cases laws v.vote.round c.round_votes) [
      | inl (e, absent) ↦
          let fresh = (add_step_self v weight []).0 ∙ add-new v weight in
          rw (e, absent, fresh)
            (laws.capacity_insert v.vote.round (VoteSet.add_step v weight []).1 c.round_votes)
      | inr (r, e, present) ↦
          rw (e, present)
            (laws.capacity_write v.vote.round c.round_votes r (VoteSet.add_step v weight r.0).1 e)
    ]

    -- No cache has the capacity 0.
    pub record HasRoom (c : VoteCollector) : Type 0 where
      pub heights : 0 < laws.capacity c.votes
      pub rounds :
          (height : ℕ) (rc : RoundCollector)
          → lru_peek height c.votes ≡ some rc
          → 0 < laws.capacity rc.round_votes
