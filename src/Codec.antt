-- ===== src/Codec.antt =====
-- The `Encodable` and `Decodable` implementations of src/lib.rs, src/objects.rs and src/timer.rs,
-- as items of the crate `rlp`. The details of a `DecoderError` are dropped.
pub mod Items
pub mod Sorting
pub mod RoundTrip
use bft_rs.Prelude.{
  ℕ, zero, suc, ◌≡◌, refl, Bool, List, [], ◌∷◌, map, Option, none, some, BftResult, ok, err,
  decode_err, ok_or, ◌>>=◌, length, get_elem?, ◌==◌, nat_eq, list_eq, if◌then◌else◌, HashMap,
  insert, ◌+◌,
}
use bft_rs.Objects.{
  Bytes, Address, Hash, Signature, Block, Node, Vote, SignedVote, Proof, Proposal, SignedProposal,
  Commit, Status, Feed, VerifyResp, TimeoutInfo,
}
use bft_rs.Objects.Kinds.{vote_type_to_u8, vote_type_from_u8, step_to_u8, step_from_u8}
use bft_rs.Env.{Env, Item}
use Items.{
  item_list, fields, val_at, bytes_item, item_bytes, u64_at, uint_at, bool_at, bytes_at, option_at,
  list_at, u64_item, option_u64,
}
use Sorting.{sort_pairs}

module _ ⦃env : Env⦄ where
  open env use {uint_item, bool_item, rlp_encode, rlp_decode, verify_req}

  unfoldable pub vote_item : Vote → Item
  vote_item v = item_list (
      uint_item (vote_type_to_u8 v.vote_type)
      ∷ u64_item v.height
      ∷ u64_item v.round
      ∷ bytes_item v.block_hash
      ∷ bytes_item v.voter
      ∷ [])

  unfoldable pub item_vote : Item → BftResult Vote
  item_vote t = do
    r ← fields 5 t
    n ← uint_at 8 r 0
    vote_type ← vote_type_from_u8 n
    height ← u64_at r 1
    round ← u64_at r 2
    block_hash ← bytes_at r 3
    voter ← bytes_at r 4
    ok (record {
      vote_type = vote_type;
      height = height;
      round = round;
      block_hash = block_hash;
      voter = voter;
    })

  unfoldable pub signed_vote_item : SignedVote → Item
  signed_vote_item v = item_list (vote_item v.vote ∷ bytes_item v.signature ∷ [])

  unfoldable pub item_signed_vote : Item → BftResult SignedVote
  item_signed_vote t = do
    r ← fields 2 t
    v ← val_at r 0
    vote ← item_vote v
    signature ← bytes_at r 1
    ok (record { vote = vote; signature = signature })

  -- The map is written as its sorted keys and their values.
  unfoldable pub proof_item : Proof → Item
  proof_item p =
      let key_values = sort_pairs p.precommit_votes in
      item_list (
        u64_item p.height
        ∷ u64_item p.round
        ∷ bytes_item p.block_hash
        ∷ item_list (map (λ (kv : Address × Signature). bytes_item kv.0) key_values)
        ∷ item_list (map (λ (kv : Address × Signature). bytes_item kv.1) key_values)
        ∷ [])

  -- `zip(...).collect()` into a map.
  abbrev pub collect_zip :
      HashMap Address Signature → List Address → List Signature → HashMap Address Signature
  collect_zip m [] vs = m
  collect_zip m (k ∷ ks) [] = m
  collect_zip m (k ∷ ks) (v ∷ vs) = collect_zip (insert k v m) ks vs

  unfoldable pub item_proof : Item → BftResult Proof
  item_proof t = do
    r ← fields 5 t
    height ← u64_at r 0
    round ← u64_at r 1
    block_hash ← bytes_at r 2
    key_list ← list_at item_bytes r 3
    value_list ← list_at item_bytes r 4
    let p : Proof = record {
      height = height;
      round = round;
      block_hash = block_hash;
      precommit_votes = collect_zip [] key_list value_list;
    }
    if length key_list == length value_list then ok p else err decode_err

  unfoldable pub proposal_item : Proposal → Item
  proposal_item p = item_list (
      u64_item p.height
      ∷ u64_item p.round
      ∷ bytes_item p.block_hash
      ∷ proof_item p.proof
      ∷ option_u64 p.lock_round
      ∷ item_list (map signed_vote_item p.lock_votes)
      ∷ bytes_item p.proposer
      ∷ [])

  unfoldable pub item_proposal : Item → BftResult Proposal
  item_proposal t = do
    r ← fields 7 t
    height ← u64_at r 0
    round ← u64_at r 1
    block_hash ← bytes_at r 2
    p ← val_at r 3
    proof ← item_proof p
    lock_round ← option_at r 4
    lock_votes ← list_at item_signed_vote r 5
    proposer ← bytes_at r 6
    ok (record {
      height = height;
      round = round;
      block_hash = block_hash;
      proof = proof;
      lock_round = lock_round;
      lock_votes = lock_votes;
      proposer = proposer;
    })

  unfoldable pub signed_proposal_item : SignedProposal → Item
  signed_proposal_item p = item_list (proposal_item p.proposal ∷ bytes_item p.signature ∷ [])

  unfoldable pub item_signed_proposal : Item → BftResult SignedProposal
  item_signed_proposal t = do
    r ← fields 2 t
    p ← val_at r 0
    proposal ← item_proposal p
    signature ← bytes_at r 1
    ok (record { proposal = proposal; signature = signature })

  unfoldable pub node_item : Node → Item
  node_item n =
      item_list (bytes_item n.address ∷ uint_item n.proposal_weight ∷ uint_item n.vote_weight ∷ [])

  unfoldable pub item_node : Item → BftResult Node
  item_node t = do
    r ← fields 3 t
    address ← bytes_at r 0
    proposal_weight ← uint_at 32 r 1
    vote_weight ← uint_at 32 r 2
    ok (record { address = address; proposal_weight = proposal_weight; vote_weight = vote_weight })

  unfoldable pub status_item : Status → Item
  status_item s =
      item_list (
        u64_item s.height ∷ option_u64 s.interval ∷ item_list (map node_item s.authority_list) ∷ [])

  unfoldable pub item_status : Item → BftResult Status
  item_status t = do
    r ← fields 3 t
    height ← u64_at r 0
    interval ← option_at r 1
    authority_list ← list_at item_node r 2
    ok (record { height = height; interval = interval; authority_list = authority_list })

  unfoldable pub feed_item : Feed → Item
  feed_item f = item_list (u64_item f.height ∷ bytes_item f.block ∷ bytes_item f.block_hash ∷ [])

  unfoldable pub item_feed : Item → BftResult Feed
  item_feed t = do
    r ← fields 3 t
    height ← u64_at r 0
    block ← bytes_at r 1
    block_hash ← bytes_at r 2
    ok (record { height = height; block = block; block_hash = block_hash })

  unfoldable pub verify_resp_item : VerifyResp → Item
  verify_resp_item v = item_list (bool_item v.is_pass ∷ u64_item v.round ∷ [])

  unfoldable pub item_verify_resp : Item → BftResult VerifyResp
  item_verify_resp t = do
    r ← fields 2 t
    is_pass ← bool_at r 0
    round ← u64_at r 1
    ok (record { is_pass = is_pass; round = round })

  unfoldable pub commit_item : Commit → Item
  commit_item c =
      item_list
        (u64_item c.height ∷ bytes_item c.block ∷ proof_item c.proof ∷ bytes_item c.address ∷ [])

  unfoldable pub item_commit : Item → BftResult Commit
  item_commit t = do
    r ← fields 4 t
    height ← u64_at r 0
    block ← bytes_at r 1
    p ← val_at r 2
    proof ← item_proof p
    address ← bytes_at r 3
    ok (record { height = height; block = block; proof = proof; address = address })

  unfoldable pub timeout_info_item : TimeoutInfo → Item
  timeout_info_item i = item_list (
      u64_item i.duration
      ∷ u64_item i.height
      ∷ u64_item i.round
      ∷ uint_item (step_to_u8 i.step)
      ∷ [])

  -- The decoded timeout is due `duration` nanoseconds after the instant `now`.
  unfoldable pub item_timeout_info : ℕ → Item → BftResult TimeoutInfo
  item_timeout_info now t = do
    r ← fields 4 t
    duration ← u64_at r 0
    height ← u64_at r 1
    round ← u64_at r 2
    s ← uint_at 8 r 3
    step ← step_from_u8 verify_req s
    ok (record {
      timestamp = now + duration;
      duration = duration;
      height = height;
      round = round;
      step = step;
    })

  -- `rlp::decode` with its error mapped to `DecodeErr`.
  abbrev pub decode_with : {A : Type 0} → (Item → BftResult A) → Bytes → BftResult A
  decode_with f bytes = do t ← ok_or decode_err (rlp_decode bytes); f t
