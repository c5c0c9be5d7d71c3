-- ===== src/Tests/Checks.antt =====
-- The checks of proofs and lock votes on concrete inputs.
use bft_rs.Prelude.{
  ℕ, ◌*◌, ◌<◌, ◌≡◌, ◌↔◌, refl, Bool, true, some, List, [], ◌∷◌, ok, All, arith, mul64,
}
use bft_rs.Objects.{Address, Proposal, proof_default}
use bft_rs.Weight.{sum64, get_total_weight, get_votes_weight}
use bft_rs.Weight.Quorum.{common}
use bft_rs.Checks.{check_proof, check_proof_only}
use bft_rs.Checks.Sound.{is_ok, check_proof-check_proof_only, IsJustified, check_proof-IsJustified}
use bft_rs.Checks.Sound.Forks.{DoubleSigned, check_proof_fork}
use bft_rs.Checks.Votes.{check_lock_votes, check_each, check_vote, vet_vote, lock_voters}
use bft_rs.Checks.Votes.Sound.{Fresh, IsVetted, check_lock_votes-ok}
use bft_rs.Collect.VoteSet
use bft_rs.Collect.Votes
use bft_rs.Machine.Monad.{◌>>=◌}
use bft_rs.Machine.Access.{votes_add, get_vote_weight, authorities_for}
use bft_rs.Tests.Sample.{sample, nodes, prevote_by, proof_for, at_height_5}

proof_accepted : (b : ℕ) → check_proof (proof_for (b ∷ [])) 6 nodes ≡ true
unfolding check_proof get_total_weight get_votes_weight sum64
proof_accepted b = refl

-- Two voters of four do not make a proof.
proof_refused :
    check_proof
      (record (proof_for (7 ∷ [])) {
        precommit_votes = ((1 ∷ []), (1 ∷ [])) ∷ ((2 ∷ []), (2 ∷ [])) ∷ [];
      })
      6
      nodes
    ≡ Bool.false
unfolding check_proof get_total_weight get_votes_weight sum64
proof_refused = refl

check_proof-check_proof_only_example :
    check_proof (proof_for (7 ∷ [])) 6 nodes ≡ is_ok (check_proof_only (proof_for (7 ∷ [])) 6 nodes)
check_proof-check_proof_only_example = check_proof-check_proof_only (proof_for (7 ∷ [])) 6 nodes

check_proof-IsJustified_example :
    (check_proof (proof_for (7 ∷ [])) 6 nodes ≡ true) ↔ IsJustified nodes 6 (proof_for (7 ∷ []))
check_proof-IsJustified_example = check_proof-IsJustified (proof_for (7 ∷ [])) 6 nodes (omega arith)

abbrev all_three : List Address
all_three = (1 ∷ []) ∷ (2 ∷ []) ∷ (3 ∷ []) ∷ []

check_proof_fork_example :
    (get_total_weight nodes < get_votes_weight nodes (common all_three all_three) * 3)
    × All
        (DoubleSigned nodes (proof_for (7 ∷ [])) (proof_for (8 ∷ [])))
        (common all_three all_three)
check_proof_fork_example =
    check_proof_fork (proof_for (7 ∷ [])) (proof_for (8 ∷ [])) 6 nodes (omega arith) (omega arith)
      refl (ground arith) (proof_accepted 7) (proof_accepted 8)

-- A proposal of height 5, round 1, that the prevotes of round 0 lock.
abbrev locked : Proposal
locked = record {
  height = 5;
  round = 1;
  block_hash = 7 ∷ [];
  proof = proof_default;
  lock_round = some 0;
  lock_votes = prevote_by 1 ∷ prevote_by 2 ∷ prevote_by 3 ∷ [];
  proposer = 1 ∷ [];
}

locked_passes : (check_lock_votes locked (7 ∷ []) at_height_5).0 ≡ ok tt
unfolding check_lock_votes check_each check_vote vet_vote votes_add get_vote_weight Votes.add_vote
    Votes.add_round VoteSet.add_step VoteSet.add get_total_weight get_votes_weight sum64 ◌>>=◌
locked_passes = refl

check_lock_votes-ok_example :
    All (IsVetted nodes 5 0 (7 ∷ [])) locked.lock_votes
    × Fresh [] locked.lock_votes
    × (mul64 (get_total_weight (authorities_for at_height_5 5)) 2
        < mul64
            (get_votes_weight (authorities_for at_height_5 5) (lock_voters locked.lock_votes))
            3)
check_lock_votes-ok_example = check_lock_votes-ok at_height_5 locked (7 ∷ []) 0 refl locked_passes
