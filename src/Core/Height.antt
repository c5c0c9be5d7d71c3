-- ===== src/Core/Height.antt =====
-- The frame rules of the height and the lock for the small methods of src/utils.rs.
pub mod Sends
pub mod Checks
pub mod Handlers
pub mod Messages
pub mod Events
pub mod Loop
pub mod Runs
use bft_rs.Prelude.{is_none, ◌∙◌, arith, ℕ, ◌≡◌, refl, Bool, true, false, Option, none, some}
use bft_rs.Objects.{
  Step, BftMsg, LogType, Bytes, Hash, Status, Proof, VoteType, SignedVote, SignedProposal, Block,
  Vote, Proposal, LockStatus,
}
use bft_rs.Env.{Env}
use bft_rs.Collect.VoteSet.{VoteSet}
use bft_rs.Checks.Votes.{check_vote}
use bft_rs.Checks.Save.{check_and_save_vote, store_vote}
use bft_rs.Machine.State.{Bft, Effect}
use bft_rs.Machine.Monad.{M, modify, when, done, ◌>>=◌}
use bft_rs.Machine.Monad.Keeps.{Keeps, keeps_rules, Keeps-modify}
use bft_rs.Machine.Monad.Reads.{bind-at, bind-get, if-at}
use bft_rs.Machine.Access.{
  change_to_step, set_timer, send_bft_msg, log, set_proof, set_status, set_polc, clean_polc,
  proposals_get, proposals_add, proposals_remove, blocks_get, blocks_add, votes_add, votes_get,
}
use bft_rs.Core.Byzantine.{
  build_signed_proposal, build_signed_proposal_encode, build_signed_vote, get_rand_vec,
  send_byzantine_proposal, send_byzantine_vote, transmit_byzantine_prevote,
  transmit_byzantine_precommit, transmit_byzantine_proposal,
}
use bft_rs.Core.Transmit.{
  transmit_prevote, transmit_precommit, is_proposer, retransmit_lower_votes,
  retransmit_nil_precommit, locked_proposal, feed_proposal, own_proposal, transmit_proposal,
  new_round_start,
}

module _ ⦃env : Env⦄ where
  -- A condition that reads of the state no more than the height, whether the node is corrupt, the
  -- authorities, the votes, the lock and the node's block hash, and that stands no lock, corruption, a
  -- look at a vote set and the storing of a vote.
  pub record Frame (P : Bft → Type 0) : Type 0 where
    pub move :
        (s s' : Bft)
        → s'.height ≡ s.height
        → s'.is_byzantine ≡ s.is_byzantine
        → s'.authority_manage ≡ s.authority_manage
        → s'.votes ≡ s.votes
        → s'.lock_status ≡ s.lock_status
        → s'.block_hash ≡ s.block_hash
        → P s
        → P s'
    pub unlocks :
        (s s' : Bft)
        → s'.height ≡ s.height
        → s'.is_byzantine ≡ s.is_byzantine
        → s'.authority_manage ≡ s.authority_manage
        → s'.votes ≡ s.votes
        → s'.lock_status ≡ none
        → P s
        → P s'
    pub corrupts :
        (s s' : Bft)
        → s'.height ≡ s.height
        → s'.is_byzantine ≡ true
        → s'.authority_manage ≡ s.authority_manage
        → s'.votes ≡ s.votes
        → s'.lock_status ≡ s.lock_status
        → P s
        → P s'
    pub reads : (height round : ℕ) (t : VoteType) → Keeps P (votes_get height round t)
    pub stores : (v : SignedVote) (need_wal : Bool) → Keeps P (check_and_save_vote v need_wal)
    pub vets :
        (height round : ℕ) (h : Hash) (v : SignedVote) → Keeps P (check_vote height round h v)

  -- A condition that stands a lock with its block hash.
  abbrev pub Locks : (Bft → Type 0) → Type 0
  Locks P =
      (s s' : Bft) (lock : LockStatus)
      → s'.height ≡ s.height
      → s'.is_byzantine ≡ s.is_byzantine
      → s'.authority_manage ≡ s.authority_manage
      → s'.votes ≡ s.votes
      → s'.lock_status ≡ some lock
      → s'.block_hash ≡ some lock.block_hash
      → P s
      → P s'

  -- A condition that reads neither the authorities nor the votes.
  pub record Free (P : Bft → Type 0) : Type 0 where
    pub move :
        (s s' : Bft)
        → s'.height ≡ s.height
        → s'.is_byzantine ≡ s.is_byzantine
        → s'.lock_status ≡ s.lock_status
        → s'.block_hash ≡ s.block_hash
        → P s
        → P s'

module _ ⦃env : Env⦄ {P : Bft → Type 0} (frame : Frame P) where
  pub change_to_step-Keeps : (step : Step) → Keeps P (change_to_step step)
  unfolding change_to_step
  change_to_step-Keeps step = search (keeps_rules, frame.move) depth 12

  pub set_timer-Keeps : (n : ℕ) (step : Step) → Keeps P (set_timer n step)
  unfolding set_timer
  set_timer-Keeps n step = search (keeps_rules, frame.move) depth 12

  pub send_bft_msg-Keeps : (m : BftMsg) → Keeps P (send_bft_msg m)
  unfolding send_bft_msg
  send_bft_msg-Keeps m = search (keeps_rules, frame.move) depth 12

  pub log-Keeps : (h : ℕ) (t : LogType) (b : Bytes) → Keeps P (log h t b)
  unfolding log
  log-Keeps h t b = search (keeps_rules, frame.move) depth 12

  pub set_proof-Keeps : (p : Proof) → Keeps P (set_proof p)
  unfolding set_proof ◌>>=◌
  set_proof-Keeps p = record {
    at = λ s h.
        frame.move _ _ (ground arith) (ground arith) (ground arith) (ground arith) (ground arith)
          (ground arith) h;
  }

  pub clean_polc-Keeps : Keeps P clean_polc
  unfolding clean_polc
  clean_polc-Keeps = Keeps-modify _ λ s k. frame.unlocks s _ refl refl refl refl refl k

  pub proposals_get-Keeps : (h r : ℕ) → Keeps P (proposals_get h r)
  unfolding proposals_get
  proposals_get-Keeps h r = record { at = λ s k. frame.move _ _ refl refl refl refl refl refl k }

  pub proposals_add-Keeps : (p : SignedProposal) → Keeps P (proposals_add p)
  unfolding proposals_add
  proposals_add-Keeps p = record { at = λ s k. frame.move _ _ refl refl refl refl refl refl k }

  pub proposals_remove-Keeps : (h r : ℕ) → Keeps P (proposals_remove h r)
  unfolding proposals_remove
  proposals_remove-Keeps h r = search (keeps_rules, frame.move) depth 12

  pub blocks_get-Keeps : (h : ℕ) (b : Hash) → Keeps P (blocks_get h b)
  unfolding blocks_get
  blocks_get-Keeps h b = record { at = λ s k. frame.move _ _ refl refl refl refl refl refl k }

  pub blocks_add-Keeps : (h : ℕ) (b : Hash) (block : Block) → Keeps P (blocks_add h b block)
  unfolding blocks_add
  blocks_add-Keeps h b block = record { at = λ s k. frame.move _ _ refl refl refl refl refl refl k }

pub ruleset access_rules = (
  change_to_step-Keeps, set_timer-Keeps, send_bft_msg-Keeps, log-Keeps, set_proof-Keeps,
  clean_polc-Keeps, proposals_get-Keeps, proposals_add-Keeps, proposals_remove-Keeps,
  blocks_get-Keeps, blocks_add-Keeps,
)

module _ ⦃env : Env⦄ {P : Bft → Type 0} (locks : Locks P) where
  pub set_polc-Keeps : (h : Hash) (v : VoteSet) → Keeps P (set_polc h v)
  unfolding set_polc
  set_polc-Keeps h v = Keeps-modify _ λ s k. locks s _ _ refl refl refl refl refl refl k

module _ ⦃env : Env⦄ {P : Bft → Type 0} (free : Free P) where
  pub set_status-Keeps : (p : Status) → Keeps P (set_status p)
  unfolding set_status
  set_status-Keeps p = search (keeps_rules, free.move) depth 12

  votes_add-Keeps : (v : SignedVote) (w : ℕ) → Keeps P (votes_add v w)
  unfolding votes_add
  votes_add-Keeps v w = record { at = λ s k. free.move _ _ refl refl refl refl k }

  pub votes_get-Keeps : (h r : ℕ) (t : VoteType) → Keeps P (votes_get h r t)
  unfolding votes_get
  votes_get-Keeps h r t = record { at = λ s k. free.move _ _ refl refl refl refl k }

  log-Free : (h : ℕ) (t : LogType) (b : Bytes) → Keeps P (log h t b)
  unfolding log
  log-Free h t b = search (keeps_rules, free.move) depth 12

  pub save_vote-Keeps : (v : SignedVote) (w : Bool) → Keeps P (check_and_save_vote v w)
  unfolding check_and_save_vote store_vote
  save_vote-Keeps v w = search (keeps_rules, votes_add-Keeps, log-Free) depth 20

  pub check_vote-Keeps : (h r : ℕ) (hash : Hash) (v : SignedVote) → Keeps P (check_vote h r hash v)
  unfolding check_vote
  check_vote-Keeps h r hash v = search (keeps_rules, votes_add-Keeps) depth 12

  -- The frame of such a condition.
  pub frame_of :
      ((s s' : Bft)
        → s'.height ≡ s.height
        → s'.is_byzantine ≡ s.is_byzantine
        → s'.lock_status ≡ none
        → P s
        → P s')
      → ((s s' : Bft)
          → s'.height ≡ s.height
          → s'.is_byzantine ≡ true
          → s'.lock_status ≡ s.lock_status
          → P s
          → P s')
      → Frame P
  frame_of unlocks corrupts = record {
    move = λ s s' h b m v l k at. free.move s s' h b l k at;
    unlocks = λ s s' h b m v l at. unlocks s s' h b l at;
    corrupts = λ s s' h b m v l at. corrupts s s' h b l at;
    reads = votes_get-Keeps;
    stores = save_vote-Keeps;
    vets = check_vote-Keeps;
  }
