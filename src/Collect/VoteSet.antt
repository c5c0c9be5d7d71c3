-- ===== src/Collect/VoteSet.antt =====
-- `VoteSet` and `StepCollector` of src/collectors.rs. An operation gives its result and the new
-- state, since a failed call may have changed the state too.
pub mod Counts
use bft_rs.Prelude.{
  ℕ, ◌+◌, Bool, Option, none, some, List, [], ◌∷◌, BftResult, ok, err, recv_msg_again, HashMap,
  lookup, contains_key, insert, lookup_or, add64, ◌==◌, list_eq, if◌then◌else◌,
}
use bft_rs.Objects.{Address, Hash, SignedVote, VoteType}
use bft_rs.Objects.Kinds.{vote_type_eq}

pub record VoteSet : Type 0 where
  pub votes_by_sender : HashMap Address SignedVote
  pub votes_by_proposal : HashMap Hash ℕ
  pub count : ℕ

abbrev pub new : VoteSet
new = record { votes_by_sender = []; votes_by_proposal = []; count = 0 }

-- `*votes_by_proposal.entry(h).or_insert(0) += weight`
abbrev pub add_weight : Hash → ℕ → HashMap Hash ℕ → HashMap Hash ℕ
add_weight h weight m = insert h (add64 (lookup_or h 0 m) weight) m

-- `VoteSet::add`
unfoldable pub add : SignedVote → ℕ → VoteSet → BftResult (Unit {0}) × VoteSet
add v weight s = if contains_key v.vote.voter s.votes_by_sender then (err recv_msg_again, s) else (
  ok tt,
  record {
    votes_by_sender = insert v.vote.voter v s.votes_by_sender;
    votes_by_proposal = add_weight v.vote.block_hash weight s.votes_by_proposal;
    count = add64 s.count weight;
  },
)

abbrev pub polc_of : Hash → HashMap Address SignedVote → List SignedVote
polc_of block_hash [] = []
polc_of block_hash ((_, v) ∷ m) =
    if v.vote.block_hash == block_hash then v ∷ polc_of block_hash m else polc_of block_hash m

-- `VoteSet::extract_polc`
unfoldable pub extract_polc : VoteSet → Hash → List SignedVote
extract_polc s block_hash = polc_of block_hash s.votes_by_sender

abbrev pub StepCollector : Type 0
StepCollector = HashMap VoteType VoteSet

-- `StepCollector::add`
unfoldable pub add_step : SignedVote → ℕ → StepCollector → BftResult (Unit {0}) × StepCollector
add_step v weight c =
    let (r, s) = add v weight (lookup_or v.vote.vote_type new c) in (r, insert v.vote.vote_type s c)
