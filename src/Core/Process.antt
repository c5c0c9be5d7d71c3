-- ===== src/Core/Process.antt =====
-- `process` and `timeout_process` of src/algorithm.rs: one message or one timeout.
use bft_rs.Prelude.{
  Bool, true, false, ◌&&◌, ◌||◌, not, none, obsolete_timer, should_not_happen, ltb, ◌==◌, nat_eq,
  if◌then◌else◌, add64, is_none, [],
}
use bft_rs.Objects.{
  Bytes, BftMsg, Vote, VoteType, Proposal, VerifyResp, Proof, TimeoutInfo, Step, LogType,
  VerifyResult, propose,
}
use bft_rs.Objects.Kinds.{step_eq, step_leb, step_ltb}
use bft_rs.Objects.Authority.{authority_manage_new}
use bft_rs.Env.{Env}
use bft_rs.Framing.{extract_two}
use bft_rs.Codec.{decode_with, item_signed_proposal, item_signed_vote, timeout_info_item}
use bft_rs.Collect.Votes.{collector_new}
use bft_rs.Collect.Proposals
use bft_rs.Wal
use bft_rs.Checks.Save.{
  check_and_save_proposal, check_and_save_vote, check_and_save_feed, check_and_save_status,
  check_and_save_verify_resp,
}
use bft_rs.Machine.State.{Bft}
use bft_rs.Machine.Monad.{
  M, pure, raise, get, modify, lift, ◌>>=◌, ◌>>◌, done, when, handle_err, need, unwrap,
}
use bft_rs.Machine.Access.{log, proposals_get, change_to_step, clean_polc}
use bft_rs.Core.Transmit.{transmit_prevote, transmit_precommit, new_round_start}
use bft_rs.Core.Rounds.{goto_next_round, set_proposal}
use bft_rs.Core.Counting.{check_prevote_count, check_verify}
use bft_rs.Core.Handlers.{
  handle_proposal, handle_vote, handle_precommit, handle_commit, handle_status, enter_height,
}

module _ ⦃env : Env⦄ where
  open env use {rlp_encode, verify_req}

  -- What follows on a proposal that was saved.
  unfoldable pub on_proposal : Proposal → M (Unit {0})
  on_proposal p = do
    s ← get
    when (step_leb s.step Step.propose_wait) (do
      handle_proposal p
      set_proposal p
      s' ← get
      when (s'.step == Step.propose_wait) (transmit_prevote false))
    s'' ← get
    when (s''.step == Step.commit) handle_commit

  unfoldable pub process_proposal : Bytes → Bool → M (Unit {0})
  unfolding on_proposal
  process_proposal encode need_wal = do
    (signed_proposal_encode, block) ← lift (extract_two encode)
    signed_proposal ← lift (decode_with item_signed_proposal signed_proposal_encode)
    check_and_save_proposal signed_proposal block signed_proposal_encode need_wal
    on_proposal signed_proposal.proposal

  -- What follows on a vote that was saved.
  unfoldable pub on_prevote : Vote → M (Unit {0})
  on_prevote vote = do
    s ← get
    when (step_leb s.step Step.prevote_wait) (do
      handle_vote vote
      s' ← get
      counted ← if step_leb Step.prevote s'.step then check_prevote_count else pure false
      when counted (change_to_step Step.prevote_wait))

  unfoldable pub on_precommit : Vote → M (Unit {0})
  on_precommit vote = do
    s ← get
    when (step_ltb s.step Step.precommit) (handle_vote vote)
    s' ← get
    when ((s'.step == Step.precommit) || (s'.step == Step.precommit_wait))
        (handle_vote vote >> handle_precommit)

  abbrev pub on_vote : Vote → VoteType → M (Unit {0})
  on_vote vote VoteType.prevote = on_prevote vote
  on_vote vote VoteType.precommit = on_precommit vote

  unfoldable pub process_vote : Bytes → Bool → M (Unit {0})
  unfolding on_prevote on_precommit
  process_vote encode need_wal = do
    signed_vote ← lift (decode_with item_signed_vote encode)
    check_and_save_vote signed_vote need_wal
    on_vote signed_vote.vote signed_vote.vote.vote_type

  -- `check_verify() == Undetermined`
  abbrev pub is_undetermined : VerifyResult → Bool
  is_undetermined VerifyResult.undetermined = true
  is_undetermined _ = false

  unfoldable pub process_verify_resp : VerifyResp → Bool → M (Unit {0})
  process_verify_resp resp need_wal = do
    check_and_save_verify_resp resp need_wal
    s ← get
    when (s.step == Step.verify_wait) (do
      result ← check_verify
      if is_undetermined result then change_to_step Step.verify_wait else transmit_precommit false)

  -- `clear`. It keeps the blocks, the status and the timer's settings.
  unfoldable pub clear : Proof → M (Unit {0})
  clear proof = modify λ s. record s {
    height = 0;
    round = 0;
    step = propose;
    block_hash = none;
    lock_status = none;
    height_filter = [];
    round_filter = [];
    last_commit_round = none;
    last_commit_block_hash = none;
    htime = s.clock;
    feed = none;
    verify_results = [];
    proof = proof;
    authority_manage = authority_manage_new;
    proposals = Proposals.new;
    votes = collector_new;
    wal_log = Wal.wal_new [] none;
    consensus_power = false;
  }

  -- `process`. `Kill` ends the main loop before it comes here.
  unfoldable pub process : BftMsg → Bool → M (Unit {0})
  unfolding process_proposal process_vote process_verify_resp clear
  process (BftMsg.proposal encode) need_wal = do
    s ← get
    when s.consensus_power (process_proposal encode need_wal)
  process (BftMsg.vote encode) need_wal = do
    s ← get
    when s.consensus_power (process_vote encode need_wal)
  process (BftMsg.feed feed) need_wal = do
    check_and_save_feed feed need_wal
    s ← get
    when (s.step == Step.propose_wait) (new_round_start false)
  process (BftMsg.status status) need_wal =
      check_and_save_status status need_wal >> handle_status status
  process (BftMsg.verify_resp resp) need_wal = when verify_req (process_verify_resp resp need_wal)
  process BftMsg.pause need_wal = modify λ s. record s { consensus_power = false }
  process BftMsg.start need_wal = modify λ s. record s { consensus_power = true }
  process (BftMsg.clear proof) need_wal = clear proof
  process BftMsg.corrupt need_wal = modify λ s. record s { is_byzantine = true }
  process BftMsg.kill need_wal = done

  -- The three tests at the start of `timeout_process`.
  abbrev pub is_obsolete : TimeoutInfo → Bft → Bool
  is_obsolete t s =
      ltb t.height s.height
      || (t.height == s.height) && ltb t.round s.round
      || (t.height == s.height) && (t.round == s.round) && not (t.step == s.step)

  unfoldable pub timeout_prevote_wait : M (Unit {0})
  timeout_prevote_wait = do
    s ← get
    when (is_none s.lock_status) (modify λ s. record s { block_hash = none })
    result ← if verify_req then check_verify else pure VerifyResult.approved
    if is_undetermined result then change_to_step Step.verify_wait else transmit_precommit false

  unfoldable pub timeout_verify_wait : M (Unit {0})
  timeout_verify_wait = do
    s ← get
    found ← proposals_get s.height s.round
    signed_proposal ← need should_not_happen found
    when (is_none signed_proposal.proposal.lock_round) clean_polc
    transmit_precommit false

  unfoldable pub timeout_commit_wait : M (Unit {0})
  timeout_commit_wait = do s ← get; status ← unwrap s.status; enter_height status (add64 s.height 1)

  -- The `match` on the step; the steps without a case are only logged.
  unfoldable pub on_timeout : Step → M (Unit {0})
  unfolding timeout_prevote_wait timeout_verify_wait timeout_commit_wait
  on_timeout Step.propose_wait = change_to_step Step.prevote >> transmit_prevote false
  on_timeout Step.prevote = transmit_prevote true
  on_timeout Step.prevote_wait = timeout_prevote_wait
  on_timeout Step.precommit = handle_err (transmit_prevote true) >> transmit_precommit true
  on_timeout Step.precommit_wait = goto_next_round >> new_round_start true
  on_timeout Step.verify_wait = when verify_req timeout_verify_wait
  on_timeout Step.commit_wait = timeout_commit_wait
  on_timeout Step.propose = done
  on_timeout Step.commit = done

  unfoldable pub timeout_process : TimeoutInfo → Bool → M (Unit {0})
  unfolding on_timeout
  timeout_process t need_wal = do
    s ← get
    when (is_obsolete t s) (raise obsolete_timer)
    when (need_wal && not (t.step == Step.prevote) && not (t.step == Step.precommit))
        (log s.height LogType.time_out_info (rlp_encode (timeout_info_item t)))
    on_timeout t.step
