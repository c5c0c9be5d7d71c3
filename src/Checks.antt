-- ===== src/Checks.antt =====
-- The validation of messages in src/utils.rs, and the public `check_proof` of src/lib.rs.
pub mod Sound
pub mod Votes
pub mod Save
use bft_rs.Prelude.{
  ℕ, ◌+◌, ◌*◌, Bool, true, false, ◌&&◌, ◌||◌, not, Option, none, some, List, [], ◌∷◌, map,
  BftResult, BftError, ok, err, panic, should_not_happen, check_proof_failed,
  check_lock_votes_failed, invalid_sender, check_block_failed, HashMap, any, all, ltb, leb, ◌==◌,
  nat_eq, list_eq, if◌then◌else◌, add64, sub64, mul64, is_some,
}
use bft_rs.Objects.{
  Bytes, Address, Hash, Signature, Block, Node, Vote, VoteType, SignedVote, Proof, Proposal, BftMsg,
}
use bft_rs.Env.{Env}
use bft_rs.Codec.{vote_item}
use bft_rs.Weight.{contains, get_total_weight, get_votes_weight}
use bft_rs.Machine.State.{Bft}
use bft_rs.Machine.Monad.{M, pure, raise, get, lift, ◌>>=◌, ◌>>◌, done, when, handle_err, need}
use bft_rs.Machine.Access.{get_authorities, get_vote_weight, get_proposer, set_proof, votes_add}

-- `votes_weight * 3 <= total_weight * 2`
abbrev pub below_quorum : List Node → List Address → Bool
below_quorum authorities vote_addresses =
    leb (mul64 (get_votes_weight authorities vote_addresses) 3)
      (mul64 (get_total_weight authorities) 2)

abbrev pub is_authority : List Node → Address → Bool
is_authority authorities voter = any (λ (n : Node). n.address == voter) authorities

abbrev pub voters : HashMap Address Signature → List Address
voters = map (λ (e : Address × Signature). e.0)

-- The precommit that a voter of a proof signed.
abbrev pub precommit_of : Proof → Address → Vote
precommit_of proof voter = record {
  vote_type = VoteType.precommit;
  height = proof.height;
  round = proof.round;
  block_hash = proof.block_hash;
  voter = voter;
}

module _ ⦃env : Env⦄ where
  open env use {rlp_encode, check_sig, crypt_hash}

  -- `crypt_hash(&rlp::encode(vote))`
  abbrev pub vote_hash : Vote → Hash
  vote_hash v = crypt_hash (rlp_encode (vote_item v))

  -- The body of the closure over `precommit_votes` in `check_proof`.
  abbrev pub vote_passes : List Node → Proof → Address × Signature → Bool
  vote_passes authorities proof (voter, sig) =
      if is_authority authorities voter
      then (elim (check_sig sig (vote_hash (precommit_of proof voter))) [
        | none ↦ false
        | some address ↦ address == voter
      ])
      else false

  -- `pub fn check_proof` of src/lib.rs
  unfoldable pub check_proof : Proof → ℕ → List Node → Bool
  check_proof proof height authorities =
      if proof.height == 0
      then true
      else if not (height == add64 proof.height 1)
      then false
      else if below_quorum authorities (voters proof.precommit_votes)
      then false
      else all (vote_passes authorities proof) proof.precommit_votes

  abbrev same_voter : Address → Option Address → BftResult (Unit {0})
  same_voter voter none = err check_proof_failed
  same_voter voter (some address) = if address == voter then ok tt else err check_proof_failed

  abbrev pub check_entry : List Node → Proof → Address × Signature → BftResult (Unit {0})
  check_entry authorities proof (voter, sig) =
      if contains (map (λ (n : Node). n.address) authorities) voter
      then same_voter voter (check_sig sig (vote_hash (precommit_of proof voter)))
      else err check_proof_failed

  -- The loop of `check_proof_only`.
  abbrev pub check_entries : List Node → Proof → HashMap Address Signature → BftResult (Unit {0})
  check_entries authorities proof [] = ok tt
  check_entries authorities proof (e ∷ es) =
      let rest = check_entries authorities proof es in
      elim (check_entry authorities proof e) [
        | ok _ ↦ rest
        | err x ↦ err x
        | BftResult.panic ↦ panic
      ]

  -- `Bft::check_proof_only`
  unfoldable pub check_proof_only : Proof → ℕ → List Node → BftResult (Unit {0})
  check_proof_only proof height authorities =
      if proof.height == 0
      then ok tt
      else if not (height == add64 proof.height 1)
      then err check_proof_failed
      else if below_quorum authorities (voters proof.precommit_votes)
      then err check_proof_failed
      else check_entries authorities proof proof.precommit_votes

  -- `Bft::check_proof`
  unfoldable pub check_proof_and_set : ℕ → Proof → M (Unit {0})
  check_proof_and_set height proof = do
    s ← get
    when (not (height == s.height)) (raise should_not_happen)
    authorities ← lift (get_authorities s height)
    lift (check_proof_only proof height authorities)
    set_proof proof

  -- `Bft::check_proposer`
  unfoldable pub check_proposer : Bft → Proposal → BftResult (Unit {0})
  check_proposer s proposal =
      if ltb proposal.height (sub64 s.height 1) || ltb s.height proposal.height
      then err should_not_happen
      else (elim (get_proposer s proposal.height proposal.round) [
        | ok proposer ↦ if proposer == proposal.proposer then ok tt else err invalid_sender
        | err e ↦ err e
        | BftResult.panic ↦ panic
      ])

  -- `Bft::check_voter`
  unfoldable pub check_voter : Bft → Vote → BftResult (Unit {0})
  check_voter s vote =
      if ltb vote.height (sub64 s.height 1) || ltb s.height vote.height
      then err should_not_happen
      else (elim (get_authorities s vote.height) [
        | ok authorities ↦ if is_authority authorities vote.voter then ok tt else err invalid_sender
        | err e ↦ err e
        | BftResult.panic ↦ panic
      ])
