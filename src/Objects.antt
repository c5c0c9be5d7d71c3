-- ===== src/Objects.antt =====
-- The data that nodes exchange and keep: src/lib.rs and src/objects.rs.
pub mod Kinds
pub mod Authority
use bft_rs.Prelude.{ℕ, Bool, Option, List, [], HashMap}
pub use Kinds.{
  Step, propose, propose_wait, prevote, prevote_wait, verify_wait, precommit, precommit_wait,
  commit, commit_wait, VoteType, LogType, PrecommitRes, VerifyResult,
}
pub use Authority.{Bytes, Node, AuthorityManage}

abbrev pub Address : Type 0
Address = Bytes

abbrev pub Hash : Type 0
Hash = Bytes

abbrev pub Signature : Type 0
Signature = Bytes

abbrev pub Block : Type 0
Block = Bytes

-- A vote to a proposal.
pub record Vote : Type 0 where
  pub vote_type : VoteType
  pub height : ℕ
  pub round : ℕ
  pub block_hash : Hash
  pub voter : Address

pub record SignedVote : Type 0 where
  pub vote : Vote
  pub signature : Signature

pub record Proof : Type 0 where
  pub height : ℕ
  pub round : ℕ
  pub block_hash : Hash
  pub precommit_votes : HashMap Address Signature

-- `Proof::default()`
abbrev pub proof_default : Proof
proof_default = record { height = 0; round = 0; block_hash = []; precommit_votes = [] }

pub record Proposal : Type 0 where
  pub height : ℕ
  pub round : ℕ
  pub block_hash : Hash
  pub proof : Proof
  pub lock_round : Option ℕ
  pub lock_votes : List SignedVote
  pub proposer : Address

pub record SignedProposal : Type 0 where
  pub proposal : Proposal
  pub signature : Signature

-- A PoLC.
pub record LockStatus : Type 0 where
  pub block_hash : Hash
  pub round : ℕ
  pub votes : List SignedVote

pub record Commit : Type 0 where
  pub height : ℕ
  pub block : Block
  pub proof : Proof
  pub address : Address

pub record Status : Type 0 where
  pub height : ℕ
  pub interval : Option ℕ
  pub authority_list : List Node

pub record Feed : Type 0 where
  pub height : ℕ
  pub block : Block
  pub block_hash : Hash

-- Without the field of the feature `compact_block`.
pub record VerifyResp : Type 0 where
  pub is_pass : Bool
  pub round : ℕ

-- An `Instant` is a number of nanoseconds.
pub record TimeoutInfo : Type 0 where
  pub timestamp : ℕ
  pub duration : ℕ
  pub height : ℕ
  pub round : ℕ
  pub step : Step

pub data BftMsg : Type 0 where
  proposal : Bytes → BftMsg
  vote : Bytes → BftMsg
  status : Status → BftMsg
  verify_resp : VerifyResp → BftMsg
  feed : Feed → BftMsg
  pause : BftMsg
  start : BftMsg
  clear : Proof → BftMsg
  kill : BftMsg
  corrupt : BftMsg
