-- ===== src/Core/Height/Handlers.antt =====
-- The height and the lock under the counts and the handlers, but for `handle_status`.
use bft_rs.Prelude.{ℕ, false, Option, none, some, List, ap}
use bft_rs.Objects.{Hash, Vote, Proposal, LockStatus, VerifyResp, PrecommitRes}
use bft_rs.Env.{Env}
use bft_rs.Collect.VoteSet.{VoteSet}
use bft_rs.Machine.State.{Bft}
use bft_rs.Machine.Monad.Keeps.{Keeps, keeps_rules, Keeps-get-bind}
use bft_rs.Machine.Monad.{◌>>=◌}
use bft_rs.Machine.Monad.Reads.{bind-at, bind-get}
use bft_rs.Machine.Access.{set_polc, clean_polc}
use bft_rs.Core.Counting.{
  count_rounds, check_precommit_count, check_prevote_count, lock_on, prevote_quorum, count_prevotes,
  precommit_quorum, count_precommits, check_verify, verified, verify_lock,
}
use bft_rs.Core.Counting.Rounds.{count_rounds_lem}
use bft_rs.Core.Handlers.{
  handle_proposal, handle_vote, handle_commit, handle_precommit, on_precommits,
}
use bft_rs.Core.Height.{Frame, Locks, access_rules, set_polc-Keeps}
use bft_rs.Core.Height.Sends.{
  lower_votes-Keeps, nil_precommit-Keeps, new_round_start-Keeps, forget-at,
}
use bft_rs.Core.Height.Checks.{next_round-Keeps}

module _ ⦃env : Env⦄ {P : Bft → Type 0} (frame : Frame P) where
  -- The loop over the counters changes the round and its filter only.
  pub counted-move : (s : Bft) (m : List (ℕ × ℕ)) → P s → P (count_rounds (false, s) m).1
  counted-move s m h =
      let same = (count_rounds_lem s m).0 in
      frame.move s (count_rounds (false, s) m).1 (ap (λ (t : Bft). t.height) same)
        (ap (λ (t : Bft). t.is_byzantine) same) (ap (λ (t : Bft). t.authority_manage) same)
        (ap (λ (t : Bft). t.votes) same) (ap (λ (t : Bft). t.lock_status) same)
        (ap (λ (t : Bft). t.block_hash) same) h

  verified-Keeps : (o : Option VerifyResp) → Keeps P (verified o)
  verified-Keeps none = search (keeps_rules, access_rules) depth 12
  verified-Keeps (some r) = search (keeps_rules, access_rules) depth 12

  verify_lock-Keeps : (s : Bft) (l : Option LockStatus) → Keeps P (verify_lock s l)
  verify_lock-Keeps s none = search (keeps_rules)
  verify_lock-Keeps s (some l) = search (keeps_rules, verified-Keeps)

  pub check_verify-Keeps : Keeps P check_verify
  unfolding check_verify
  check_verify-Keeps = search (keeps_rules, verify_lock-Keeps)

  pub handle_proposal-Keeps : (p : Proposal) → Keeps P (handle_proposal p)
  unfolding handle_proposal
  handle_proposal-Keeps p = search (keeps_rules, lower_votes-Keeps) depth 12

  pub handle_vote-Keeps : (v : Vote) → Keeps P (handle_vote v)
  unfolding handle_vote
  handle_vote-Keeps v =
      search (keeps_rules, frame.move, lower_votes-Keeps, nil_precommit-Keeps) depth 12

  pub handle_commit-Keeps : Keeps P handle_commit
  unfolding handle_commit
  handle_commit-Keeps = search (keeps_rules, frame.move, access_rules) depth 12

module _ ⦃env : Env⦄ {P : Bft → Type 0} (frame : Frame P) (locks : Locks P) where
  lock_on-Keeps : (h : Hash) (v : VoteSet) → Keeps P (lock_on h v)
  unfolding lock_on clean_polc set_polc ◌>>=◌
  lock_on-Keeps h v = search (keeps_rules, locks, set_polc-Keeps, access_rules) depth 12

  prevote_quorum-Keeps : (v : VoteSet) (o : Option (Hash × ℕ)) → Keeps P (prevote_quorum v o)
  prevote_quorum-Keeps v none = search (keeps_rules)
  prevote_quorum-Keeps v (some (h, n)) = search (keeps_rules, lock_on-Keeps)

  count_prevotes-Keeps : (o : Option VoteSet) → Keeps P (count_prevotes o)
  count_prevotes-Keeps none = search (keeps_rules)
  count_prevotes-Keeps (some v) = search (keeps_rules, access_rules, prevote_quorum-Keeps) depth 12

  pub check_prevote_count-Keeps : Keeps P check_prevote_count
  unfolding check_prevote_count
  check_prevote_count-Keeps = Keeps-get-bind _ λ s h.
      let moved = counted-move frame s s.votes.prevote_count h in
      let step : (t : Bft) → P t → P (count_rounds (false, s) s.votes.prevote_count).1 =
        λ t k. moved in
      search (keeps_rules, frame.reads, access_rules, step, count_prevotes-Keeps) depth 12

  precommit_quorum-Keeps : (v : VoteSet) (o : Option (Hash × ℕ)) → Keeps P (precommit_quorum v o)
  precommit_quorum-Keeps v none = search (keeps_rules, access_rules) depth 12
  precommit_quorum-Keeps v (some (h, n)) =
      search (keeps_rules, locks, set_polc-Keeps, access_rules) depth 12

  count_precommits-Keeps : (o : Option VoteSet) → Keeps P (count_precommits o)
  count_precommits-Keeps none = search (keeps_rules)
  count_precommits-Keeps (some v) = search (keeps_rules, precommit_quorum-Keeps) depth 12

  pub check_precommit_count-Keeps : Keeps P check_precommit_count
  unfolding check_precommit_count
  check_precommit_count-Keeps = Keeps-get-bind _ λ s h.
      let moved = counted-move frame s s.votes.precommit_count h in
      let step : (t : Bft) → P t → P (count_rounds (false, s) s.votes.precommit_count).1 =
        λ t k. moved in
      search (keeps_rules, frame.reads, access_rules, step, count_precommits-Keeps) depth 12

module _ ⦃env : Env⦄ {P : Bft → Type 0} (frame : Frame P)
    (counts : Keeps P check_precommit_count) where
  on_precommits-Keeps : (r : PrecommitRes) → Keeps P (on_precommits r)
  on_precommits-Keeps PrecommitRes.above = search (access_rules)
  on_precommits-Keeps PrecommitRes.nil = record {
    at = λ s h. bind-get P _ s (
        bind-at {P = P} _ _ s (forget-at frame s h)
          (λ u. search (keeps_rules, frame, next_round-Keeps, new_round_start-Keeps) depth 12));
  }
  on_precommits-Keeps PrecommitRes.proposal =
      search (keeps_rules, access_rules, handle_commit-Keeps)
  on_precommits-Keeps PrecommitRes.below = search (keeps_rules)

  pub handle_precommit-Keeps : Keeps P handle_precommit
  unfolding handle_precommit
  handle_precommit-Keeps = search (keeps_rules, counts, on_precommits-Keeps)
