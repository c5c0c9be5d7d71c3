-- ===== src/Core/Handlers.antt =====
-- `handle_proposal`, `handle_vote`, `handle_precommit`, `handle_commit` and `handle_status` of
-- src/algorithm.rs.
use bft_rs.Prelude.{
  ℕ, ◌-◌, Bool, true, false, ◌&&◌, not, Option, none, some, obsolete_msg, not_ready,
  should_not_happen, insert, ltb, leb, ◌==◌, nat_eq, list_eq, if◌then◌else◌, add64, sub64, is_none,
}
use bft_rs.Objects.{Block, Vote, Proposal, Commit, Status, Step, PrecommitRes, Proof}
use bft_rs.Objects.Kinds.{step_leb}
use bft_rs.Env.{Env}
use bft_rs.Machine.Params.{get_total_duration}
use bft_rs.Machine.State.{Bft, Effect}
use bft_rs.Machine.Monad.{M, raise, get, modify, ◌>>=◌, ◌>>◌, done, when, handle_err, need, unwrap}
use bft_rs.Machine.Access.{
  emit, proposals_get, blocks_get, set_timer, change_to_step, set_proof, set_status, generate_proof,
  filter_height, filter_round,
}
use bft_rs.Core.Transmit.{retransmit_lower_votes, retransmit_nil_precommit, new_round_start}
use bft_rs.Core.Rounds.{goto_new_height, goto_next_round, flush_cache}
use bft_rs.Core.Counting.{check_precommit_count}

-- `last_commit_round.is_some() && round >= last_commit_round.unwrap()`
abbrev pub since_commit : Option ℕ → ℕ → Bool
since_commit none round = false
since_commit (some last) round = leb last round

module _ ⦃env : Env⦄ where
  unfoldable pub handle_proposal : Proposal → M (Unit {0})
  handle_proposal p = do
    s ← get
    if p.height == sub64 s.height 1
        then (when (since_commit s.last_commit_round p.round) (retransmit_lower_votes p.round)
            >> raise obsolete_msg)
        else when (ltb p.round s.round) (raise obsolete_msg)

  -- A vote of the height below: at most one answer in a while for each voter.
  abbrev answer_lower : Bft → Vote → M (Unit {0})
  answer_lower s vote =
      when (since_commit s.last_commit_round vote.round && filter_height s vote.voter) (
        modify (λ s. record s { height_filter = insert vote.voter s.clock s.height_filter })
        >> retransmit_lower_votes vote.round)

  -- A vote of the round below.
  abbrev answer_round : Bft → Vote → M (Unit {0})
  answer_round s vote = when (filter_round s vote.voter) (
      modify (λ s. record s { round_filter = insert vote.voter s.clock s.round_filter })
      >> retransmit_nil_precommit vote)

  unfoldable pub handle_vote : Vote → M (Unit {0})
  handle_vote vote = do
    s ← get
    if vote.height == sub64 s.height 1
        then (answer_lower s vote >> raise obsolete_msg)
        else if (vote.height == s.height) && not (s.round == 0) && (vote.round == sub64 s.round 1)
        then (answer_round s vote >> raise obsolete_msg)
        else when (not ((vote.height == s.height) && leb s.round vote.round)) (raise obsolete_msg)

  -- The commit of the block that the proposal of this round names, with the proof for the lock.
  abbrev pub commit_of : Bft → Block → Proof → Proposal → Commit
  commit_of s block proof p = record {
    height = s.height;
    block = block;
    proof = proof;
    address = p.proposer;
  }

  unfoldable pub handle_commit : M (Unit {0})
  handle_commit = do
    s ← get
    lock_status ← unwrap s.lock_status
    let proof = generate_proof s lock_status
    set_proof proof
    found ← proposals_get s.height s.round
    signed_proposal ← need not_ready found
    let proposal = signed_proposal.proposal
    stored ← blocks_get s.height proposal.block_hash
    block ← need should_not_happen stored
    emit (Effect.spawn_commit (commit_of s block proof proposal))
    modify λ s. record s {
      last_commit_round = some s.round;
      last_commit_block_hash = some proposal.block_hash;
    }

  abbrev pub on_precommits : PrecommitRes → M (Unit {0})
  on_precommits PrecommitRes.above = change_to_step Step.precommit_wait
  on_precommits PrecommitRes.nil = do
    s ← get
    when (is_none s.lock_status) (modify λ s. record s { block_hash = none })
    goto_next_round
    new_round_start true
  on_precommits PrecommitRes.proposal = change_to_step Step.commit >> handle_commit
  on_precommits PrecommitRes.below = done

  unfoldable pub handle_precommit : M (Unit {0})
  handle_precommit = check_precommit_count >>= on_precommits

  -- The way to the next height: the new authorities, the reset, the cached messages.
  abbrev pub enter_height : Status → ℕ → M (Unit {0})
  enter_height status new_height = do
    set_status status
    goto_new_height new_height
    handle_err flush_cache
    new_round_start true

  -- With this height's status the node waits for the rest of the interval.
  abbrev pub wait_interval : Bft → M (Unit {0})
  wait_interval s =
      change_to_step Step.commit_wait
      >> set_timer (get_total_duration s.params.timer - (s.clock - s.htime)) Step.commit_wait

  -- A status that is not below the node's height.
  abbrev pub accept_status : Status → Bft → M (Unit {0})
  accept_status status s = do
    modify λ s. record s { status = some status }
    if (status.height == s.height) && not env.machine_gun
        then wait_interval s
        else (when (ltb s.height status.height)
              (modify λ s. record s { last_commit_block_hash = none; last_commit_round = none })
            >> enter_height status (add64 status.height 1))

  unfoldable pub handle_status : Status → M (Unit {0})
  handle_status status = do
    s₀ ← get
    when (ltb 0 s₀.height && (status.height == sub64 s₀.height 1) && step_leb Step.commit s₀.step)
        handle_commit
    s ← get
    if leb s.height status.height then accept_status status s else raise obsolete_msg
