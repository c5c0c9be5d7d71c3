-- ===== src/Machine/State.antt =====
-- `struct Bft` of src/algorithm.rs.
use bft_rs.Prelude.{ℕ, Bool, false, Option, none, List, [], HashMap}
use bft_rs.Objects.{
  Address, Hash, Block, Step, propose, LockStatus, AuthorityManage, Status, VerifyResp, Proof,
  proof_default, BftMsg, TimeoutInfo, Commit,
}
use bft_rs.Objects.Authority.{authority_manage_new}
use bft_rs.Env.{Env}
use bft_rs.Collect.Votes.{VoteCollector, collector_new}
use bft_rs.Collect.Proposals
use bft_rs.Collect.Proposals.{ProposalCollector}
use bft_rs.Collect.Blocks
use bft_rs.Collect.Blocks.{BlockCollector}
use bft_rs.Wal.{Wal}
use bft_rs.Machine.Params.{BftParams, params_new}

-- What a handler does to the outside: `function.transmit`, a send on the node's own channel or on
-- the timer's, and the threads that it spawns for `commit`, `get_block` and `check_block`.
pub data Effect : Type 0 where
  transmit : BftMsg → Effect
  send : BftMsg → Effect
  timer : TimeoutInfo → Effect
  spawn_commit : Commit → Effect
  spawn_get_block : ℕ → Effect
  spawn_check_block : Block → Hash → Hash → ℕ × ℕ → Bool → Address → Effect

module _ ⦃env : Env⦄ where
  -- The last three fields are the model's: the instant that `Instant::now()` gives, the number of
  -- random draws, and the effects, the newest first.
  pub record Bft : Type 0 where
    pub height : ℕ
    pub round : ℕ
    pub step : Step
    pub block_hash : Option Hash
    pub lock_status : Option LockStatus
    pub height_filter : HashMap Address ℕ
    pub round_filter : HashMap Address ℕ
    pub last_commit_round : Option ℕ
    pub last_commit_block_hash : Option Hash
    pub authority_manage : AuthorityManage
    pub params : BftParams
    pub htime : ℕ
    pub feed : Option Hash
    pub status : Option Status
    pub verify_results : HashMap ℕ VerifyResp
    pub proof : Proof
    pub blocks : BlockCollector
    pub proposals : ProposalCollector
    pub votes : VoteCollector
    pub wal_log : Wal
    pub consensus_power : Bool
    pub is_byzantine : Bool
    pub clock : ℕ
    pub draws : ℕ
    pub effects : List Effect

  -- `Bft::new`, at the instant `now` and over the log in the node's directory.
  abbrev pub bft_new : Address → ℕ → Wal → Bft
  bft_new local_address now wal = record {
    height = 0;
    round = 0;
    step = propose;
    block_hash = none;
    lock_status = none;
    height_filter = [];
    round_filter = [];
    last_commit_round = none;
    last_commit_block_hash = none;
    authority_manage = authority_manage_new;
    params = params_new local_address;
    htime = now;
    feed = none;
    status = none;
    verify_results = [];
    proof = proof_default;
    blocks = Blocks.new;
    proposals = Proposals.new;
    votes = collector_new;
    wal_log = wal;
    consensus_power = false;
    is_byzantine = false;
    clock = now;
    draws = 0;
    effects = [];
  }
