-- ===== src/Tests/Caches.antt =====
-- A proposal and a block in the caches of src/collectors.rs.
use bft_rs.Prelude.{
  ℕ, ◌<◌, ◌≡◌, false, ◌&&◌, not, is_some, none, some, [], ◌∷◌, ok, arith, nat_beq, list_beq,
}
use bft_rs.Objects.{Hash, SignedProposal}
use bft_rs.Collect.Cache.{KeptOrLost}
use bft_rs.Collect.Votes.{cache_n}
use bft_rs.Collect.Proposals
use bft_rs.Collect.Proposals.Refines
use bft_rs.Collect.Blocks
use bft_rs.Collect.Blocks.Refines.{first_of}
use bft_rs.Tests.Sample.{sample, sample-LruLaws, proof_for}

-- A proposal of a round of height 5 for a block hash.
abbrev proposed : ℕ → ℕ → SignedProposal
proposed round b = record {
  proposal = record {
    height = 5;
    round = round;
    block_hash = b ∷ [];
    proof = proof_for (6 ∷ []);
    lock_round = none;
    lock_votes = [];
    proposer = 1 ∷ [];
  };
  signature = 1 ∷ [];
}

-- A second proposal of the round 0.
add-get_proposal_example :
    let c = (Proposals.add (proposed 0 7) Proposals.new).1 in
    let c' = (Proposals.add (proposed 0 8) c).1 in
    let before = (Proposals.get_proposal 5 0 c).0 in
    ((Proposals.add (proposed 0 8) c).0 ≡ Refines.added before)
    × ((Proposals.get_proposal 5 0 c').0 ≡ some (first_of before (proposed 0 8)))
    × ((height round : ℕ)
        → (nat_beq 5 height && nat_beq 0 round) ≡ false
        → KeptOrLost
            (Proposals.get_proposal height round c).0
            (Proposals.get_proposal height round c').0)
    × Refines.HasRoom sample-LruLaws c'
add-get_proposal_example =
    Refines.add-get_proposal sample-LruLaws (proposed 0 8)
      (Proposals.add (proposed 0 7) Proposals.new).1
      (Refines.add-get_proposal sample-LruLaws (proposed 0 7) Proposals.new
        (Refines.new-HasRoom sample-LruLaws)).3

no_block-room : 0 < sample-LruLaws.capacity Blocks.new.blocks
no_block-room = rw (sample-LruLaws.capacity_new cache_n) (omega arith)

one_block-room : 0 < sample-LruLaws.capacity (Blocks.add 5 (7 ∷ []) (1 ∷ []) Blocks.new).1.blocks
one_block-room =
    rw
      ((Blocks.Refines.add-get_block sample-LruLaws 5 (7 ∷ []) (1 ∷ []) Blocks.new no_block-room).3)
      no_block-room

add-get_block_example :
    let c = (Blocks.add 5 (7 ∷ []) (1 ∷ []) Blocks.new).1 in
    let c' = (Blocks.add 5 (7 ∷ []) (2 ∷ []) c).1 in
    let before = (Blocks.get_block 5 (7 ∷ []) c).0 in
    ((Blocks.add 5 (7 ∷ []) (2 ∷ []) c).0 ≡ ok (not (is_some before)))
    × ((Blocks.get_block 5 (7 ∷ []) c').0 ≡ some (first_of before (2 ∷ [])))
    × ((height' : ℕ) (hash' : Hash)
        → (nat_beq 5 height' && list_beq (7 ∷ []) hash') ≡ false
        → KeptOrLost (Blocks.get_block height' hash' c).0 (Blocks.get_block height' hash' c').0)
    × (sample-LruLaws.capacity c'.blocks ≡ sample-LruLaws.capacity c.blocks)
add-get_block_example =
    Blocks.Refines.add-get_block sample-LruLaws 5 (7 ∷ []) (2 ∷ [])
      (Blocks.add 5 (7 ∷ []) (1 ∷ []) Blocks.new).1 one_block-room
