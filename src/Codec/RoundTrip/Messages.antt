-- ===== src/Codec/RoundTrip/Messages.antt =====
-- About encoding and decoding proposals, commits and timeouts: src/objects.rs, src/lib.rs and
-- src/timer.rs.
use mathlib.Core.Option
use bft_rs.Prelude.{ℕ, ◌+◌, ◌≡◌, refl, Bool, true, List, [], ◌∷◌, map, ok, arith, IsU64, All}
use bft_rs.Objects.{
  SignedVote, Proof, Proposal, SignedProposal, Commit, TimeoutInfo, Step, VerifyResp,
}
use bft_rs.Objects.Kinds.{step_to_u8, step_from_u8}
use bft_rs.Env.{Env, RlpLaws}
use bft_rs.Codec.{
  commit_item, item_commit, proposal_item, item_proposal, signed_proposal_item,
  item_signed_proposal, signed_vote_item, item_signed_vote, timeout_info_item, item_timeout_info,
  verify_resp_item, item_verify_resp,
}
use bft_rs.Codec.Items.{from_list, decode_all, u64_item}
use bft_rs.Codec.RoundTrip.{
  to_list-from_list, IsWord, option_word_back, item_signed_vote-signed_vote_item,
}
use bft_rs.Codec.RoundTrip.Proofs.{SameProof, ProofFits, item_proof-proof_item, bytes_back}

step_back :
    (verify_req : Bool) (s : Step)
    → (s ≡ Step.verify_wait → verify_req ≡ true)
    → step_from_u8 verify_req (step_to_u8 s) ≡ ok s
unfolding step_from_u8
step_back verify_req s known = ground arith

-- A signed vote whose height and round are 64-bit words.
abbrev pub VoteFits : SignedVote → Type 0
VoteFits v = IsU64 v.vote.height × IsU64 v.vote.round

-- A proposal whose numbers are 64-bit words.
pub record ProposalFits (p : Proposal) : Type 0 where
  pub height_fits : IsU64 p.height
  pub round_fits : IsU64 p.round
  pub proof_fits : ProofFits p.proof
  pub lock_fits : IsWord p.lock_round
  pub votes_fit : All VoteFits p.lock_votes

module _ ⦃env : Env⦄ (laws : RlpLaws env) where
  votes_back :
      (vs : List SignedVote)
      → All VoteFits vs
      → decode_all item_signed_vote (map signed_vote_item vs) ≡ ok vs
  votes_back [] fits = refl
  votes_back (v ∷ vs) fits =
      ground
        (arith, item_signed_vote-signed_vote_item laws v fits.0.0 fits.0.1, votes_back vs fits.1)

  -- A proposal is decoded from its item, up to the order of its proof's votes.
  pub item_proposal-proposal_item :
      (p : Proposal)
      → ProposalFits p
      → (proof : Proof) × (item_proposal (proposal_item p) ≡ ok (record p { proof = proof }))
        × SameProof p.proof proof
  unfolding item_proposal proposal_item
  item_proposal-proposal_item p fits =
      let (proof, back, same) = item_proof-proof_item laws p.proof fits.proof_fits in
      (
        proof,
        ground (
          arith,
          laws.uint_back 64 p.height fits.height_fits,
          laws.uint_back 64 p.round fits.round_fits,
          bytes_back p.block_hash,
          bytes_back p.proposer,
          back,
          laws.option_back (Option.map u64_item p.lock_round),
          option_word_back laws p.lock_round fits.lock_fits,
          laws.items_back (from_list (map signed_vote_item p.lock_votes)),
          to_list-from_list (map signed_vote_item p.lock_votes),
          votes_back p.lock_votes fits.votes_fit,
        ),
        same,
      )

  -- A signed proposal whose proposal's numbers are 64-bit words is decoded from its item, up to the
  -- order of its proof's votes.
  pub item_signed_proposal-signed_proposal_item :
      (p : SignedProposal)
      → ProposalFits p.proposal
      → (proof : Proof) × (item_signed_proposal (signed_proposal_item p)
          ≡ ok (record p { proposal = record p.proposal { proof = proof } }))
        × SameProof p.proposal.proof proof
  unfolding item_signed_proposal signed_proposal_item
  item_signed_proposal-signed_proposal_item p fits =
      let (proof, back, same) = item_proposal-proposal_item p.proposal fits in
      (proof, ground (arith, back, bytes_back p.signature), same)

  -- A commit whose height and whose proof's numbers are 64-bit words is decoded from its item, up to
  -- the order of its proof's votes.
  pub item_commit-commit_item :
      (c : Commit)
      → IsU64 c.height
      → ProofFits c.proof
      → (proof : Proof) × (item_commit (commit_item c) ≡ ok (record c { proof = proof }))
        × SameProof c.proof proof
  unfolding item_commit commit_item
  item_commit-commit_item c height fits =
      let (proof, back, same) = item_proof-proof_item laws c.proof fits in
      (
        proof,
        ground (
          arith,
          laws.uint_back 64 c.height height,
          bytes_back c.block,
          bytes_back c.address,
          back,
        ),
        same,
      )

  -- An answer to a verification is decoded from its item, if its round is a 64-bit word.
  item_verify_resp-verify_resp_item :
      (v : VerifyResp) → IsU64 v.round → item_verify_resp (verify_resp_item v) ≡ ok v
  unfolding item_verify_resp verify_resp_item
  item_verify_resp-verify_resp_item v fits =
      ground (arith, laws.bool_back v.is_pass, laws.uint_back 64 v.round fits)

  -- A timeout, from the log, is decoded as it was written, but due its duration after the instant
  -- of the decoding. The step VerifyWait has to be one of the build's.
  item_timeout_info-timeout_info_item :
      (now : ℕ) (i : TimeoutInfo)
      → IsU64 i.duration
      → IsU64 i.height
      → IsU64 i.round
      → (i.step ≡ Step.verify_wait → env.verify_req ≡ true)
      → item_timeout_info now (timeout_info_item i) ≡ ok (record i { timestamp = now + i.duration })
  unfolding item_timeout_info timeout_info_item
  item_timeout_info-timeout_info_item now i duration height round known = ground (
    arith,
    laws.uint_back 64 i.duration duration,
    laws.uint_back 64 i.height height,
    laws.uint_back 64 i.round round,
    laws.uint_back 8 (step_to_u8 i.step),
    step_back env.verify_req i.step known,
  )
