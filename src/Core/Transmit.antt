-- ===== src/Core/Transmit.antt =====
-- The sending methods of src/algorithm.rs.
pub mod Locked
pub mod Offer
use bft_rs.Prelude.{
  ℕ, ◌*◌, ◌^◌, Bool, true, false, ◌&&◌, ◌||◌, not, Option, none, some, [], not_ready, ltb, ◌==◌,
  nat_eq, list_eq, if◌then◌else◌, sub64, is_none,
}
use bft_rs.Objects.{Hash, Vote, VoteType, SignedVote, BftMsg, Bytes, Step, LockStatus, Proposal}
use bft_rs.Env.{Env}
use bft_rs.Codec.{signed_vote_item}
use bft_rs.Machine.Params.{BftTimer, get_prevote, get_precommit, get_propose}
use bft_rs.Machine.State.{Bft, Effect}
use bft_rs.Machine.Monad.{
  M, pure, raise, get, modify, lift, ◌>>=◌, ◌>>◌, done, when, handle_err, unwrap,
}
use bft_rs.Machine.Access.{
  emit, proposals_get, set_timer, change_to_step, send_bft_msg, get_proposer,
}
use bft_rs.Core.Byzantine.{
  timeout_retranse_coef, build_signed_vote, build_signed_proposal_encode,
  transmit_byzantine_prevote, transmit_byzantine_precommit, transmit_byzantine_proposal,
}

abbrev pub proposal_times_coef : ℕ
proposal_times_coef = 4

-- How long a round waits for a proposal: it doubles with the round, four times at most.
unfoldable pub propose_timeout : BftTimer → ℕ → ℕ
propose_timeout timer round =
    get_propose timer * 2 ^ (if ltb proposal_times_coef round then proposal_times_coef else round)

module _ ⦃env : Env⦄ where
  open env use {rlp_encode}

  -- A vote of this node for the current height and round.
  abbrev pub own_vote : Bft → VoteType → Hash → Vote
  own_vote s vote_type block_hash = record {
    vote_type = vote_type;
    height = s.height;
    round = s.round;
    block_hash = block_hash;
    voter = s.params.address;
  }

  -- What `transmit_prevote` votes for: the lock, else the proposal, else nil.
  abbrev pub prevote_hash : Option LockStatus → Option Hash → Hash
  prevote_hash (some lock) h = lock.block_hash
  prevote_hash none (some h) = h
  prevote_hash none none = []

  abbrev pub vote_msg : SignedVote → BftMsg
  vote_msg v = BftMsg.vote (rlp_encode (signed_vote_item v))

  unfoldable pub transmit_prevote : Bool → M (Unit {0})
  transmit_prevote resend = do
    s ← get
    let honest = (do
      signed_vote ←
          build_signed_vote (own_vote s VoteType.prevote (prevote_hash s.lock_status s.block_hash))
      emit (Effect.transmit (vote_msg signed_vote))
      when (not resend)
          (change_to_step Step.prevote >> handle_err (send_bft_msg (vote_msg signed_vote)))
      set_timer (get_prevote s.params.timer * timeout_retranse_coef) Step.prevote)
    if s.is_byzantine then transmit_byzantine_prevote resend else honest

  -- What `transmit_precommit` votes for: the lock, else nil.
  abbrev pub precommit_hash : Option LockStatus → Hash
  precommit_hash (some lock) = lock.block_hash
  precommit_hash none = []

  unfoldable pub transmit_precommit : Bool → M (Unit {0})
  transmit_precommit resend = do
    s ← get
    let honest = (do
      when (is_none s.lock_status) (modify λ s. record s { block_hash = none })
      signed_vote ← build_signed_vote (own_vote s VoteType.precommit (precommit_hash s.lock_status))
      emit (Effect.transmit (vote_msg signed_vote))
      when (not resend)
          (change_to_step Step.precommit >> handle_err (send_bft_msg (vote_msg signed_vote)))
      set_timer (get_precommit s.params.timer * timeout_retranse_coef) Step.precommit)
    if s.is_byzantine then transmit_byzantine_precommit resend else honest

  -- One vote of `retransmit_lower_votes`, for the height below.
  abbrev lower_vote : Bft → VoteType → ℕ → Hash → Vote
  lower_vote s vote_type round block_hash = record {
    vote_type = vote_type;
    height = sub64 s.height 1;
    round = round;
    block_hash = block_hash;
    voter = s.params.address;
  }

  unfoldable pub retransmit_lower_votes : ℕ → M (Unit {0})
  retransmit_lower_votes round = do
    s ← get
    let honest = (do
      hash ← unwrap s.last_commit_block_hash
      prevote ← build_signed_vote (lower_vote s VoteType.prevote round hash)
      emit (Effect.transmit (vote_msg prevote))
      precommit ← build_signed_vote (lower_vote s VoteType.precommit round hash)
      emit (Effect.transmit (vote_msg precommit)))
    if s.is_byzantine then done else honest

  unfoldable pub retransmit_nil_precommit : Vote → M (Unit {0})
  retransmit_nil_precommit vote = do
    s ← get
    let honest = (do
      precommit ← build_signed_vote (record {
        vote_type = VoteType.precommit;
        height = vote.height;
        round = vote.round;
        block_hash = [];
        voter = s.params.address;
      })
      emit (Effect.transmit (vote_msg precommit)))
    if s.is_byzantine then done else honest

  -- The proposal of a locked node, from the one that it has cached for the lock's round.
  abbrev pub lock_offer : Bft → LockStatus → Proposal → Proposal
  lock_offer s lock lock_proposal = record {
    height = s.height;
    round = s.round;
    block_hash = lock_proposal.block_hash;
    proof = lock_proposal.proof;
    lock_round = some lock.round;
    lock_votes = lock.votes;
    proposer = s.params.address;
  }

  -- The proposal of a locked node: the locked block with the votes that lock it.
  unfoldable pub locked_proposal : Bft → LockStatus → M Bytes
  locked_proposal s lock = do
    found ← proposals_get s.height lock.round
    lock_signed_proposal ← unwrap found
    build_signed_proposal_encode (lock_offer s lock lock_signed_proposal.proposal)

  -- The proposal of a node that is not locked: the block that it was fed.
  unfoldable pub feed_proposal : Bft → M Bytes
  feed_proposal s = do
    block_hash ← unwrap s.feed
    modify λ s. record s { block_hash = some block_hash }
    build_signed_proposal_encode (record {
      height = s.height;
      round = s.round;
      block_hash = block_hash;
      proof = s.proof;
      lock_round = none;
      lock_votes = [];
      proposer = s.params.address;
    })

  abbrev pub own_proposal : Bft → Option LockStatus → M Bytes
  own_proposal s (some lock) = locked_proposal s lock
  own_proposal s none = feed_proposal s

  unfoldable pub transmit_proposal : M (Unit {0})
  transmit_proposal = do
    s ← get
    let wait =
        (set_timer (propose_timeout s.params.timer s.round) Step.propose_wait >> raise not_ready)
    let honest = (do
      when (is_none s.lock_status && (is_none s.feed || not (s.proof.height == sub64 s.height 1)))
          wait
      encode ← own_proposal s s.lock_status
      emit (Effect.transmit (BftMsg.proposal encode))
      send_bft_msg (BftMsg.proposal encode))
    if s.is_byzantine then transmit_byzantine_proposal else honest

  -- `is_proposer`; who is not the proposer waits for the proposal.
  unfoldable pub is_proposer : M Bool
  is_proposer = do
    s ← get
    proposer ← lift (get_proposer s s.height s.round)
    if s.params.address == proposer
        then pure true
        else (set_timer (propose_timeout s.params.timer s.round) Step.propose_wait >> pure false)

  unfoldable pub new_round_start : Bool → M (Unit {0})
  new_round_start new_round = do
    change_to_step Step.propose_wait
    proposer ← is_proposer
    s ← get
    when proposer (
        when new_round
          (modify (λ s. record s { feed = none }) >> emit (Effect.spawn_get_block s.height))
        >> transmit_proposal
        >> transmit_prevote false)
