-- ===== src/Core/Justified/Offers.antt =====
-- `check_lock_votes` of src/utils.rs accepts the votes of a justified lock, for its block only.
use bft_rs.Prelude.{
  ℕ, ◌^◌, ◌<◌, ◌≡◌, ◌≢◌, ◌↔◌, refl, sym, ◌∙◌, inl, inr, false, ◌||◌, some, List, [], ◌∷◌, All, ok,
  panic, arith, mul64, sub64, ltb, is_empty, list_beq_iff, list_eq, BftResult-cases,
}
use bft_rs.Objects.{Address, Hash, Node, SignedVote, Proposal, LockStatus}
use bft_rs.Env.{Env, LruLaws}
use bft_rs.Weight.{sum64, get_total_weight, get_votes_weight}
use bft_rs.Checks.Votes.{vet_vote, check_vote, check_each, check_lock_votes, lock_voters}
use bft_rs.Checks.Votes.Sound.{IsVetted, Fresh, check_lock_votes-ok}
use bft_rs.Collect.VoteSet
use bft_rs.Collect.VoteSet.{VoteSet}
use bft_rs.Collect.Votes.{VoteCollector, add_vote}
use bft_rs.Collect.Votes.View.{HasRoom}
use bft_rs.Collect.Votes.Refines.{add_vote-get_voteset}
use bft_rs.Machine.State.{Bft}
use bft_rs.Machine.Monad.{◌>>=◌}
use bft_rs.Machine.Access.{authorities_for, get_vote_weight, votes_add}
use bft_rs.Core.Commits.Within.{check_vote-changes, Within}
use bft_rs.Core.Commits.Invariant.{TalliedUnder}
use bft_rs.Core.Justified.{IsJustified, LockIsJustified}
use bft_rs.Core.Justified.Runs.{Within-LockIsJustified}

VoteSet_add-returns : (v : SignedVote) (w : ℕ) (set : VoteSet) → (VoteSet.add v w set).0 ≢ panic
unfolding VoteSet.add
VoteSet_add-returns v w set h = ground (arith, h)

module _ ⦃env : Env⦄ where
  vet_vote-passes :
      (s : Bft) (height round : ℕ) (hash : Hash) (v : SignedVote)
      → ltb height (sub64 s.height 1) ≡ false
      → is_empty (authorities_for s height) ≡ false
      → IsVetted (authorities_for s height) height round hash v
      → vet_vote s height round hash v ≡ ok v.vote.voter
  unfolding vet_vote
  vet_vote-passes s height round hash v recent full vetted = ground (
    arith,
    list_beq_iff v.vote.block_hash hash,
    list_beq_iff v.vote.voter v.vote.voter,
    vetted.signed,
    vetted.listed,
    vetted.at_height,
    vetted.at_round,
    vetted.for_block,
  )

module _ ⦃env : Env⦄ (laws : LruLaws env) where
  add_vote-returns :
      (v : SignedVote) (w current : ℕ) (c : VoteCollector)
      → HasRoom laws c
      → (add_vote v w current c).0 ≢ panic
  add_vote-returns v w current c room h =
      VoteSet_add-returns v w _ (sym (add_vote-get_voteset laws v w current c room).0 ∙ h)

  returns :
      (s : Bft) (height round : ℕ) (hash : Hash) (v : SignedVote)
      → HasRoom laws s.votes
      → vet_vote s height round hash v ≡ ok v.vote.voter
      → (check_vote height round hash v s).0 ≡ ok v.vote.voter
  unfolding check_vote votes_add ◌>>=◌
  returns s height round hash v room passes =
      let w = get_vote_weight s height v.vote.voter in
      elim (BftResult-cases (add_vote v w s.height s.votes).0) [
        | inl (u, e) ↦ ground (arith, passes, e)
        | inr (inl (x, e)) ↦ ground (arith, passes, e)
        | inr (inr e) ↦ absurd (add_vote-returns v w s.height s.votes room e)
      ]

  keeps :
      (s : Bft) (height round : ℕ) (hash : Hash) (v : SignedVote)
      → HasRoom laws s.votes
      → HasRoom laws (check_vote height round hash v s).1.votes
  keeps s height round hash v room = elim ((check_vote-changes height round hash v s).2) [
    | inl same ↦ rw same room
    | inr (_, added) ↦ rw added ((add_vote-get_voteset laws v _ s.height s.votes room).3)
  ]

  -- A vetted vote passes, and leaves what the next one is checked against.
  check_vote-passes :
      (s : Bft) (height round : ℕ) (hash : Hash) (v : SignedVote)
      → HasRoom laws s.votes
      → vet_vote s height round hash v ≡ ok v.vote.voter
      → ((check_vote height round hash v s).0 ≡ ok v.vote.voter)
        × HasRoom laws (check_vote height round hash v s).1.votes
  check_vote-passes s height round hash v room passes =
      (returns s height round hash v room passes, keeps s height round hash v room)

  check_each-passes :
      (s : Bft) (height round : ℕ) (hash : Hash) (seen : List Address) (vs : List SignedVote)
      → HasRoom laws s.votes
      → ltb height (sub64 s.height 1) ≡ false
      → is_empty (authorities_for s height) ≡ false
      → All (IsVetted (authorities_for s height) height round hash) vs
      → Fresh seen vs
      → (check_each height round hash seen vs s).0 ≡ ok tt
  unfolding check_each ◌>>=◌
  check_each-passes s height round hash seen [] room recent full vetted fresh = refl
  check_each-passes s height round hash seen (v ∷ vs) room recent full vetted fresh =
      let s' = (check_vote height round hash v s).1 in
      let (passed, room') =
        check_vote-passes s height round hash v room
          (vet_vote-passes s height round hash v recent full vetted.0) in
      let (h, m, _) = check_vote-changes height round hash v s in
      let same : authorities_for s' height ≡ authorities_for s height = rw m refl in
      let rest =
        check_each-passes s' height round hash (v.vote.voter ∷ seen) vs room' (rw h recent)
          (rw same full) (rw same vetted.1) fresh.1 in
      rw (passed, fresh.0) rest

  weighty-full :
      (ns : List Node) (xs : List Address)
      → mul64 (get_total_weight ns) 2 < mul64 (get_votes_weight ns xs) 3
      → is_empty ns ≡ false
  unfolding get_total_weight get_votes_weight sum64
  weighty-full [] xs h = absurd (omega arith)
  weighty-full (n ∷ ns) xs h = refl

  check_lock_votes-passes :
      (s : Bft) (p : Proposal) (hash : Hash) (lock_round : ℕ)
      → HasRoom laws s.votes
      → (ltb p.height (sub64 s.height 1) || ltb s.height p.height) ≡ false
      → p.lock_round ≡ some lock_round
      → All (IsVetted (authorities_for s p.height) p.height lock_round hash) p.lock_votes
      → Fresh [] p.lock_votes
      → mul64 (get_total_weight (authorities_for s p.height)) 2
        < mul64 (get_votes_weight (authorities_for s p.height) (lock_voters p.lock_votes)) 3
      → (check_lock_votes p hash s).0 ≡ ok tt
  unfolding check_lock_votes ◌>>=◌
  check_lock_votes-passes s p hash lock_round room range e vetted fresh quorum =
      let full = weighty-full (authorities_for s p.height) (lock_voters p.lock_votes) quorum in
      let recent : ltb p.height (sub64 s.height 1) ≡ false = ground arith in
      let each =
        check_each-passes s p.height lock_round hash [] p.lock_votes room recent full vetted
          fresh in
      rw (range, e) (ground (arith, each, full))

  no_voters : (ns : List Node) → get_votes_weight ns [] ≡ 0
  unfolding get_votes_weight sum64
  no_voters [] = refl
  no_voters (n ∷ ns) = no_voters ns

  -- Votes with weight that are vetted for two blocks are for one.
  one_block :
      (ns : List Node) (height round : ℕ) (g g' : Hash) (vs : List SignedVote)
      → mul64 (get_total_weight ns) 2 < mul64 (get_votes_weight ns (lock_voters vs)) 3
      → All (IsVetted ns height round g) vs
      → All (IsVetted ns height round g') vs
      → g ≡ g'
  one_block ns height round g g' [] quorum a b = absurd (omega (arith, no_voters ns))
  one_block ns height round g g' (v ∷ vs) quorum a b = sym a.0.for_block ∙ b.0.for_block

  -- A proposal with the lock round and the lock votes of this lock, and the node that receives it:
  -- under the same authorities, at the proposal's height or the next one, and with room in its caches.
  pub record IsOffered (ns : List Node) (height : ℕ) (lock : LockStatus) (p : Proposal) (r : Bft)
      : Type 0 where
    pub at_height : p.height ≡ height
    pub of_round : p.lock_round ≡ some lock.round
    pub of_votes : p.lock_votes ≡ lock.votes
    pub authorities : authorities_for r height ≡ ns
    pub range : (ltb p.height (sub64 r.height 1) || ltb r.height p.height) ≡ false
    pub room : HasRoom laws r.votes

  -- Such a proposal is accepted if and only if it is for the locked block.
  pub offered-accepted :
      (ns : List Node) (height : ℕ) (lock : LockStatus) (p : Proposal) (r : Bft)
      → IsJustified ns height lock
      → IsOffered ns height lock p r
      → ((check_lock_votes p p.block_hash r).0 ≡ ok tt) ↔ (p.block_hash ≡ lock.block_hash)
  offered-accepted ns height lock p r just o =
      let same : authorities_for r p.height ≡ ns = rw o.at_height o.authorities in
      (
        (λ passed.
            let (votes, _, _) = check_lock_votes-ok r p p.block_hash lock.round o.of_round passed in
            one_block ns height lock.round p.block_hash lock.block_hash lock.votes just.quorum
              (rw (same, o.at_height, o.of_votes) at votes) just.votes),
        (λ e.
            check_lock_votes-passes r p p.block_hash lock.round o.room o.range o.of_round
              (rw (same, o.at_height, e, o.of_votes) just.votes) (rw o.of_votes just.once)
              (rw (same, o.of_votes) just.quorum)),
      )

  -- Along any run of the main loop that stays at a height, whatever messages and timeouts it takes: a
  -- node that receives a proposal with the lock round and the lock votes of the node's lock accepts
  -- them in `check_lock_votes` if and only if the proposal is for the locked block. The receiver has
  -- the same authorities, is at the proposal's height or the next one, and has room in its caches. At
  -- the start of the run the height is a 64-bit number, a lock is justified, every set of votes of the
  -- height is tallied, the authorities are the present ones, have different addresses and less than
  -- 2 ^ 64 in weight, and the caches have room.
  Within-offered :
      (s t r : Bft) (lock : LockStatus) (p : Proposal)
      → s.height < 2 ^ 64
      → TalliedUnder laws s
      → LockIsJustified s
      → Within s t
      → t.lock_status ≡ some lock
      → IsOffered t.authority_manage.authorities t.height lock p r
      → ((check_lock_votes p p.block_hash r).0 ≡ ok tt) ↔ (p.block_hash ≡ lock.block_hash)
  Within-offered s t r lock p fits tallied just run locked o =
      offered-accepted t.authority_manage.authorities t.height lock p r
        (Within-LockIsJustified laws s t fits tallied just run lock locked) o
