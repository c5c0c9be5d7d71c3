-- ===== src/Core/Height/Messages.antt =====
-- The frame rules of a proposal, a vote, a response and the waits of src/algorithm.rs.
use bft_rs.Prelude.{Bool, false, if◌then◌else◌}
use bft_rs.Objects.{
  Bytes, Block, SignedProposal, Vote, VoteType, Proposal, VerifyResp, VerifyResult, Step,
}
use bft_rs.Objects.Kinds.{step_eq}
use bft_rs.Env.{Env}
use bft_rs.Machine.State.{Bft}
use bft_rs.Machine.Monad.{pure, ◌>>◌}
use bft_rs.Machine.Monad.Keeps.{Keeps, keeps_rules, Keeps-bind, Keeps-if}
use bft_rs.Machine.Monad.Reads.{bind-at, bind-get}
use bft_rs.Machine.Access.{change_to_step}
use bft_rs.Checks.Save.{check_and_save_proposal}
use bft_rs.Core.Counting.{check_prevote_count, check_precommit_count}
use bft_rs.Core.Handlers.{handle_precommit}
use bft_rs.Core.Transmit.{transmit_precommit}
use bft_rs.Core.Process.{
  is_undetermined, on_proposal, on_prevote, on_precommit, on_vote, timeout_prevote_wait,
  timeout_verify_wait, process_proposal, process_vote, process_verify_resp,
}
use bft_rs.Core.Height.{Frame, Locks, access_rules}
use bft_rs.Core.Height.Sends.{transmit_prevote-Keeps, transmit_precommit-Keeps, forget-at}
use bft_rs.Core.Height.Checks.{save_proposal-Keeps, verify_resp-Keeps, set_proposal-Keeps}
use bft_rs.Core.Height.Handlers.{
  handle_proposal-Keeps, handle_vote-Keeps, handle_commit-Keeps, handle_precommit-Keeps,
  check_prevote_count-Keeps, check_precommit_count-Keeps, check_verify-Keeps,
}

module _ ⦃env : Env⦄ where
  -- A condition that stands the methods that lock: the counts, and what follows on a proposal.
  pub record Locking (P : Bft → Type 0) : Type 0 where
    pub counts_prevotes : Keeps P check_prevote_count
    pub counts_precommits : Keeps P check_precommit_count
    pub takes :
        (p : SignedProposal) (b : Block) (e : Bytes) (w : Bool)
        → Keeps P (check_and_save_proposal p b e w >> on_proposal p.proposal)

module _ ⦃env : Env⦄ {P : Bft → Type 0} (frame : Frame P) (locks : Locks P) where
  on_proposal-Keeps : (p : Proposal) → Keeps P (on_proposal p)
  unfolding on_proposal
  on_proposal-Keeps p =
      search
        (
          keeps_rules, handle_proposal-Keeps, set_proposal-Keeps, locks, transmit_prevote-Keeps,
          handle_commit-Keeps,
        )
        depth 12

  pub locking_of : Locking P
  locking_of = record {
    counts_prevotes = check_prevote_count-Keeps frame locks;
    counts_precommits = check_precommit_count-Keeps frame locks;
    takes = λ p b e w.
        Keeps-bind _ _ (save_proposal-Keeps frame p b e w) (λ _. on_proposal-Keeps p.proposal);
  }

module _ ⦃env : Env⦄ {P : Bft → Type 0} (frame : Frame P)
    (counts : Keeps P check_prevote_count) where
  counted-Keeps : (b : Bool) → Keeps P (if b then check_prevote_count else pure false)
  counted-Keeps b = Keeps-if b _ _ counts (search (keeps_rules))

  on_prevote-Keeps : (v : Vote) → Keeps P (on_prevote v)
  unfolding on_prevote
  on_prevote-Keeps v = search (keeps_rules, access_rules, handle_vote-Keeps, counted-Keeps) depth 12

module _ ⦃env : Env⦄ {P : Bft → Type 0} (frame : Frame P)
    (counts : Keeps P check_precommit_count) where
  handles-Keeps : Keeps P handle_precommit
  handles-Keeps = handle_precommit-Keeps frame counts

  on_precommit-Keeps : (v : Vote) → Keeps P (on_precommit v)
  unfolding on_precommit
  on_precommit-Keeps v = search (keeps_rules, handle_vote-Keeps, handles-Keeps) depth 12

module _ ⦃env : Env⦄ {P : Bft → Type 0} (frame : Frame P) (locking : Locking P) where
  pub process_proposal-Keeps : (e : Bytes) (w : Bool) → Keeps P (process_proposal e w)
  unfolding process_proposal
  process_proposal-Keeps e w = search (keeps_rules, locking.takes) depth 12

  on_vote-Keeps : (v : Vote) (t : VoteType) → Keeps P (on_vote v t)
  on_vote-Keeps v VoteType.prevote = on_prevote-Keeps frame locking.counts_prevotes v
  on_vote-Keeps v VoteType.precommit = on_precommit-Keeps frame locking.counts_precommits v

  pub process_vote-Keeps : (e : Bytes) (w : Bool) → Keeps P (process_vote e w)
  unfolding process_vote
  process_vote-Keeps e w = search (keeps_rules, frame.stores, on_vote-Keeps) depth 12

module _ ⦃env : Env⦄ {P : Bft → Type 0} (frame : Frame P) where
  pub process_resp-Keeps : (v : VerifyResp) (w : Bool) → Keeps P (process_verify_resp v w)
  unfolding process_verify_resp
  process_resp-Keeps v w =
      search
        (keeps_rules, access_rules, verify_resp-Keeps, check_verify-Keeps, transmit_precommit-Keeps)
        depth 12

  wait_result-Keeps :
      (r : VerifyResult)
      → Keeps P
          (if is_undetermined r then change_to_step Step.verify_wait else transmit_precommit false)
  wait_result-Keeps r = search (keeps_rules, frame, access_rules, transmit_precommit-Keeps) depth 12

  pub prevote_wait-Keeps : Keeps P timeout_prevote_wait
  unfolding timeout_prevote_wait
  prevote_wait-Keeps = record {
    at = λ s h. bind-get P _ s (
        bind-at {P = P} _ _ s (forget-at frame s h)
          (λ u. search (keeps_rules, frame, wait_result-Keeps, check_verify-Keeps) depth 12));
  }

  pub verify_wait-Keeps : Keeps P timeout_verify_wait
  unfolding timeout_verify_wait
  verify_wait-Keeps = search (keeps_rules, access_rules, transmit_precommit-Keeps) depth 12
