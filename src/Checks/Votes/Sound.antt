-- ===== src/Checks/Votes/Sound.antt =====
-- What `check_lock_votes` accepts.
use bft_rs.Prelude.{
  ℕ, ◌<◌, ◌≡◌, true, false, some, List, [], ◌∷◌, ok, All, arith, list_beq_iff, mul64, Option-cases,
  BftResult-cases, inl, inr,
}
use bft_rs.Objects.{Address, Hash, Node, SignedVote, Proposal}
use bft_rs.Env.{Env}
use bft_rs.Weight.{contains, get_total_weight, get_votes_weight}
use bft_rs.Checks.{vote_hash, is_authority}
use bft_rs.Checks.Votes.{vet_vote, check_vote, check_each, check_lock_votes, lock_voters}
use bft_rs.Machine.State.{Bft}
use bft_rs.Machine.Monad.{◌>>=◌}
use bft_rs.Machine.Access.{authorities_for, votes_add}

-- No voter is in `seen`, and none votes twice.
abbrev pub Fresh : List Address → List SignedVote → Type 0
Fresh seen [] = Unit
Fresh seen (v ∷ vs) = (contains seen v.vote.voter ≡ false) × Fresh (v.vote.voter ∷ seen) vs

module _ ⦃env : Env⦄ where
  open env use {check_sig}

  -- A vote that `check_vote` lets pass: for the block, by one of the authorities, with its signature.
  pub record IsVetted (ns : List Node) (height round : ℕ) (block_hash : Hash) (v : SignedVote)
      : Type 0 where
    pub at_height : v.vote.height ≡ height
    pub at_round : v.vote.round ≡ round
    pub for_block : v.vote.block_hash ≡ block_hash
    pub signed : check_sig v.signature (vote_hash v.vote) ≡ some v.vote.voter
    pub listed : is_authority ns v.vote.voter ≡ true

  pub vet_vote-ok :
      (s : Bft) (height round : ℕ) (block_hash : Hash) (v : SignedVote) (a : Address)
      → vet_vote s height round block_hash v ≡ ok a
      → (a ≡ v.vote.voter) × IsVetted (authorities_for s height) height round block_hash v
  unfolding vet_vote
  vet_vote-ok s height round block_hash v a h =
      let x = check_sig v.signature (vote_hash v.vote) in
      elim (Option-cases x) [
        | inl bad ↦ absurd (ground (arith))
        | inr (b, e) ↦
            ground (arith, list_beq_iff b v.vote.voter, list_beq_iff v.vote.block_hash block_hash)
      ]

  check_vote-ok :
      (s : Bft) (height round : ℕ) (block_hash : Hash) (v : SignedVote) (a : Address)
      → (check_vote height round block_hash v s).0 ≡ ok a
      → (vet_vote s height round block_hash v ≡ ok a)
        × ((check_vote height round block_hash v s).1
            ≡ record s { votes = (check_vote height round block_hash v s).1.votes })
  unfolding check_vote votes_add ◌>>=◌
  check_vote-ok s height round block_hash v a h =
      elim (BftResult-cases (vet_vote s height round block_hash v)) [
        | inl (b, e) ↦ ground arith
        | inr (inl (x, e)) ↦ absurd (ground arith)
        | inr (inr e) ↦ absurd (ground arith)
      ]

  -- The verdict on a vote does not read the votes.
  vet_vote-votes :
      (s s' : Bft) (height round : ℕ) (block_hash : Hash) (v : SignedVote)
      → s' ≡ record s { votes = s'.votes }
      → IsVetted (authorities_for s' height) height round block_hash v
      → IsVetted (authorities_for s height) height round block_hash v
  vet_vote-votes s s' height round block_hash v same vetted = ground (arith)

  All-votes :
      (s s' : Bft) (height round : ℕ) (block_hash : Hash) (vs : List SignedVote)
      → s' ≡ record s { votes = s'.votes }
      → All (IsVetted (authorities_for s' height) height round block_hash) vs
      → All (IsVetted (authorities_for s height) height round block_hash) vs
  All-votes s s' height round block_hash [] same all = tt
  All-votes s s' height round block_hash (v ∷ vs) same all = (
    vet_vote-votes s s' height round block_hash v same all.0,
    All-votes s s' height round block_hash vs same all.1,
  )

  -- One round of the loop that did not fail.
  check_each-step :
      (s : Bft) (height round : ℕ) (block_hash : Hash) (seen : List Address) (v : SignedVote)
      (vs : List SignedVote)
      → (check_each height round block_hash seen (v ∷ vs) s).0 ≡ ok tt
      → let s' = (check_vote height round block_hash v s).1 in
        IsVetted (authorities_for s height) height round block_hash v
        × (contains seen v.vote.voter ≡ false)
        × (s' ≡ record s { votes = s'.votes })
        × ((check_each height round block_hash (v.vote.voter ∷ seen) vs s').0 ≡ ok tt)
  unfolding check_each ◌>>=◌
  check_each-step s height round block_hash seen v vs h =
      elim (BftResult-cases (check_vote height round block_hash v s).0) [
        | inl (a, e) ↦
            let (vetted, same) = check_vote-ok s height round block_hash v a e in
            let (is_voter, ok_vote) = vet_vote-ok s height round block_hash v a vetted in
            ground (arith)
        | inr (inl (x, e)) ↦ absurd (ground arith)
        | inr (inr e) ↦ absurd (ground arith)
      ]

  check_each-ok :
      (s : Bft) (height round : ℕ) (block_hash : Hash) (seen : List Address) (vs : List SignedVote)
      → (check_each height round block_hash seen vs s).0 ≡ ok tt
      → All (IsVetted (authorities_for s height) height round block_hash) vs × Fresh seen vs
  check_each-ok s height round block_hash seen [] h = (tt, tt)
  check_each-ok s height round block_hash seen (v ∷ vs) h =
      let s' = (check_vote height round block_hash v s).1 in
      let (vetted, new, same, rest) = check_each-step s height round block_hash seen v vs h in
      let (all, fresh) = check_each-ok s' height round block_hash (v.vote.voter ∷ seen) vs rest in
      ((vetted, All-votes s s' height round block_hash vs same all), (new, fresh))

  -- If `check_lock_votes` accepts a proposal with a lock round, each of its lock votes is for the
  -- proposal's height, the lock round and the given block, by an authority and with its signature;
  -- no voter votes twice; and the voters have more than two thirds of the weight (in 64-bit
  -- arithmetic).
  pub check_lock_votes-ok :
      (s : Bft) (p : Proposal) (block_hash : Hash) (lock_round : ℕ)
      → p.lock_round ≡ some lock_round
      → (check_lock_votes p block_hash s).0 ≡ ok tt
      → All (IsVetted (authorities_for s p.height) p.height lock_round block_hash) p.lock_votes
        × Fresh [] p.lock_votes
        × (mul64 (get_total_weight (authorities_for s p.height)) 2
            < mul64 (get_votes_weight (authorities_for s p.height) (lock_voters p.lock_votes)) 3)
  unfolding check_lock_votes ◌>>=◌
  check_lock_votes-ok s p block_hash lock_round e h =
      elim (BftResult-cases (check_each p.height lock_round block_hash [] p.lock_votes s).0) [
        | inl (u, fine) ↦
            let (all, fresh) =
              check_each-ok s p.height lock_round block_hash [] p.lock_votes (ground arith) in
            (all, fresh, ground arith)
        | inr (inl (x, bad)) ↦ absurd (ground arith)
        | inr (inr bad) ↦ absurd (ground arith)
      ]
