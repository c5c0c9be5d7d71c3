-- ===== src/Tests/Codec.antt =====
-- Messages that are encoded and decoded, over the sample encoding.
use bft_rs.Prelude.{ℕ, ◌≡◌, refl, some, List, [], ◌∷◌, ok, arith}
use bft_rs.Objects.{Node, Proof, SignedProposal, Commit, TimeoutInfo, Step}
use bft_rs.Codec.{
  proof_item, item_proof, signed_proposal_item, item_signed_proposal, commit_item, item_commit,
}
use bft_rs.Codec.RoundTrip.Proofs.{SameProof, ProofFits}
use bft_rs.Codec.RoundTrip.Messages.{
  ProposalFits, item_signed_proposal-signed_proposal_item, item_commit-commit_item,
}
use bft_rs.Checks.{check_proof}
use bft_rs.Checks.Sound.Order.{check_proof-decoded}
use bft_rs.Tests.Sample.{sample, sample-RlpLaws, prevote_by, proof_for}

-- The votes of the sample proof, the last first.
abbrev reversed : Proof
reversed = record (proof_for (7 ∷ [])) {
  precommit_votes = ((3 ∷ []), (3 ∷ [])) ∷ ((2 ∷ []), (2 ∷ [])) ∷ ((1 ∷ []), (1 ∷ [])) ∷ [];
}

reversed-ProofFits : ProofFits reversed
reversed-ProofFits = record {
  height_fits = omega arith;
  round_fits = omega arith;
  is_map = (refl, (refl, (refl, tt)));
}

check_proof-decoded_example :
    (q : Proof) × (item_proof (proof_item reversed) ≡ ok q)
    × ((height : ℕ) (ns : List Node) → check_proof q height ns ≡ check_proof reversed height ns)
check_proof-decoded_example = check_proof-decoded sample-RlpLaws reversed reversed-ProofFits

abbrev proposed : SignedProposal
proposed = record {
  proposal = record {
    height = 6;
    round = 1;
    block_hash = 9 ∷ [];
    proof = reversed;
    lock_round = some 0;
    lock_votes = prevote_by 1 ∷ prevote_by 2 ∷ [];
    proposer = 1 ∷ [];
  };
  signature = 1 ∷ [];
}

proposed-ProposalFits : ProposalFits proposed.proposal
proposed-ProposalFits = record {
  height_fits = omega arith;
  round_fits = omega arith;
  proof_fits = reversed-ProofFits;
  lock_fits = omega arith;
  votes_fit = ((omega arith, omega arith), ((omega arith, omega arith), tt));
}

item_signed_proposal-signed_proposal_item_example :
    (proof : Proof) × (item_signed_proposal (signed_proposal_item proposed)
      ≡ ok (record proposed { proposal = record proposed.proposal { proof = proof } }))
    × SameProof reversed proof
item_signed_proposal-signed_proposal_item_example =
    item_signed_proposal-signed_proposal_item sample-RlpLaws proposed proposed-ProposalFits

abbrev committed : Commit
committed = record { height = 5; block = 8 ∷ []; proof = reversed; address = 1 ∷ [] }

item_commit-commit_item_example :
    (proof : Proof) × (item_commit (commit_item committed)
      ≡ ok (record committed { proof = proof }))
    × SameProof reversed proof
item_commit-commit_item_example =
    item_commit-commit_item sample-RlpLaws committed (omega arith) reversed-ProofFits

abbrev timed : TimeoutInfo
timed = record { timestamp = 50; duration = 20; height = 5; round = 0; step = Step.prevote_wait }
