-- ===== src/Core/Byzantine.antt =====
-- src/byzantine.rs: what a node marked as corrupt sends. The random bytes are those of `rand`.
use bft_rs.Prelude.{
  ℕ, ◌+◌, ◌*◌, Bool, false, not, some, none, [], BftResult, should_not_happen, sign_failed, ◌==◌,
}
use bft_rs.Objects.{Vote, VoteType, SignedVote, Proposal, SignedProposal, BftMsg, Bytes, Step}
use bft_rs.Objects.Kinds.{step_eq}
use bft_rs.Env.{Env}
use bft_rs.Framing.{combine_two}
use bft_rs.Codec.{vote_item, signed_vote_item, proposal_item, signed_proposal_item}
use bft_rs.Machine.Params.{get_prevote, get_precommit}
use bft_rs.Machine.State.{Effect}
use bft_rs.Machine.Monad.{M, pure, get, modify, ◌>>=◌, ◌>>◌, when, need}
use bft_rs.Machine.Access.{emit, blocks_add, blocks_get, set_timer, change_to_step}

abbrev pub timeout_retranse_coef : ℕ
timeout_retranse_coef = 15

module _ ⦃env : Env⦄ where
  open env use {rlp_encode, sign, crypt_hash, rand_vec}

  -- `build_signed_proposal` of src/utils.rs
  unfoldable pub build_signed_proposal : Proposal → M SignedProposal
  build_signed_proposal proposal = do
    signature ← need sign_failed (sign (crypt_hash (rlp_encode (proposal_item proposal))))
    pure (record { proposal = proposal; signature = signature })

  -- `build_signed_proposal_encode` of src/utils.rs
  unfoldable pub build_signed_proposal_encode : Proposal → M Bytes
  unfolding build_signed_proposal
  build_signed_proposal_encode proposal = do
    signed_proposal ← build_signed_proposal proposal
    found ← blocks_get proposal.height proposal.block_hash
    block ← need should_not_happen found
    pure (combine_two (rlp_encode (signed_proposal_item signed_proposal)) block)

  -- `build_signed_vote` of src/utils.rs
  unfoldable pub build_signed_vote : Vote → M SignedVote
  build_signed_vote vote = do
    signature ← need sign_failed (sign (crypt_hash (rlp_encode (vote_item vote))))
    pure (record { vote = vote; signature = signature })

  -- `get_rand_vec(20)`
  unfoldable pub get_rand_vec : M Bytes
  get_rand_vec s = (BftResult.ok (rand_vec s.draws 20), record s { draws = s.draws + 1 })

  unfoldable pub send_byzantine_proposal : M (Unit {0})
  unfolding get_rand_vec build_signed_proposal_encode
  send_byzantine_proposal = do
    block ← get_rand_vec
    let block_hash = crypt_hash block
    s ← get
    _ ← blocks_add s.height block_hash block
    modify λ s. record s { block_hash = some block_hash }
    s' ← get
    encode ← build_signed_proposal_encode (record {
      height = s'.height;
      round = s'.round;
      block_hash = block_hash;
      proof = s'.proof;
      lock_round = none;
      lock_votes = [];
      proposer = s'.params.address;
    })
    emit (Effect.transmit (BftMsg.proposal encode))

  unfoldable pub send_byzantine_vote : VoteType → M (Unit {0})
  unfolding get_rand_vec build_signed_vote
  send_byzantine_vote vote_type = do
    s ← get
    noise ← get_rand_vec
    signed_vote ← build_signed_vote (record {
      vote_type = vote_type;
      height = s.height;
      round = s.round;
      block_hash = crypt_hash noise;
      voter = s.params.address;
    })
    emit (Effect.transmit (BftMsg.vote (rlp_encode (signed_vote_item signed_vote))))

  unfoldable pub transmit_byzantine_prevote : Bool → M (Unit {0})
  transmit_byzantine_prevote resend = do
    send_byzantine_vote VoteType.prevote
    send_byzantine_vote VoteType.prevote
    send_byzantine_vote VoteType.prevote
    when (not resend) (change_to_step Step.prevote)
    s ← get
    set_timer (get_prevote s.params.timer * timeout_retranse_coef) Step.prevote

  -- The timer is set for the step `Prevote` here too, as the source has it.
  unfoldable pub transmit_byzantine_precommit : Bool → M (Unit {0})
  transmit_byzantine_precommit resend = do
    send_byzantine_vote VoteType.precommit
    send_byzantine_vote VoteType.precommit
    send_byzantine_vote VoteType.precommit
    when (not resend) (change_to_step Step.precommit)
    s ← get
    set_timer (get_precommit s.params.timer * timeout_retranse_coef) Step.prevote

  -- `transmit_prevote` of a corrupt node is `transmit_byzantine_prevote`.
  unfoldable pub transmit_byzantine_proposal : M (Unit {0})
  transmit_byzantine_proposal = do
    send_byzantine_proposal
    send_byzantine_proposal
    send_byzantine_proposal
    s ← get
    when (s.step == Step.propose_wait) (transmit_byzantine_prevote false)
