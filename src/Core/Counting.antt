-- ===== src/Core/Counting.antt =====
-- `check_prevote_count`, `check_precommit_count` and `check_verify` of src/algorithm.rs.
pub mod Rounds
pub mod Locks
use bft_rs.Prelude.{
  ℕ, ◌*◌, Bool, true, false, ◌&&◌, ◌||◌, not, Option, none, some, List, [], ◌∷◌, HashMap, lookup,
  find, ltb, leb, ◌==◌, nat_eq, if◌then◌else◌, is_none, is_empty,
}
use bft_rs.Objects.{Hash, VoteType, LockStatus, Step, PrecommitRes, VerifyResult, VerifyResp}
use bft_rs.Objects.Kinds.{step_eq}
use bft_rs.Env.{Env}
use bft_rs.Collect.VoteSet.{VoteSet}
use bft_rs.Machine.Params.{get_prevote, get_precommit}
use bft_rs.Machine.State.{Bft}
use bft_rs.Machine.Monad.{M, pure, get, modify, ◌>>=◌, ◌>>◌, done, when}
use bft_rs.Machine.Access.{
  votes_get, set_timer, set_polc, clean_polc, cal_all_vote, cal_above_threshold,
}
use bft_rs.Core.Rounds.{raise_round}

abbrev pub verify_await_coef : ℕ
verify_await_coef = 50

module _ ⦃env : Env⦄ where
  -- The body of the loop over `prevote_count` or `precommit_count`: a later round with enough
  -- weight becomes the node's round.
  unfoldable pub count_round : ℕ × ℕ → Bool × Bft → Bool × Bft
  count_round (round, count) (flag, s) =
      if cal_above_threshold s count && leb s.round round
      then (true, raise_round round s)
      else (flag, s)

  unfoldable pub count_rounds : Bool × Bft → HashMap ℕ ℕ → Bool × Bft
  count_rounds acc [] = acc
  count_rounds acc (e ∷ m) = count_rounds (count_round e acc) m

  -- The first entry with enough weight: the loop breaks or returns there.
  abbrev pub quorum_entry : Bft → VoteSet → Option (Hash × ℕ)
  quorum_entry s set = find (λ (e : Hash × ℕ). cal_above_threshold s e.1) set.votes_by_proposal

  abbrev older_lock : Option LockStatus → ℕ → Bool
  older_lock none round = false
  older_lock (some lock) round = ltb lock.round round

  -- A quorum of prevotes for `hash`: an earlier lock is dropped (at nil) or replaced, and a node
  -- without a lock locks.
  unfoldable pub lock_on : Hash → VoteSet → M (Unit {0})
  lock_on hash set = do
    s ← get
    when (older_lock s.lock_status s.round) (
        if is_empty hash
        then (clean_polc >> modify (λ s. record s { block_hash = none }))
        else set_polc hash set)
    s' ← get
    when (is_none s'.lock_status && not (is_empty hash)) (set_polc hash set)

  abbrev pub prevote_quorum : VoteSet → Option (Hash × ℕ) → M Bool
  prevote_quorum set none = pure false
  prevote_quorum set (some (hash, _)) = lock_on hash set >> pure true

  abbrev pub count_prevotes : Option VoteSet → M Bool
  count_prevotes none = pure false
  count_prevotes (some set) = do
    s ← get
    found ← prevote_quorum set (quorum_entry s set)
    let tv = if found || cal_all_vote s set.count then 0 else get_prevote s.params.timer
    when (s.step == Step.prevote) (set_timer tv Step.prevote_wait)
    pure true

  unfoldable pub check_prevote_count : M Bool
  check_prevote_count = do
    s ← get
    let (flag, s') = count_rounds (false, s) s.votes.prevote_count
    modify λ _. s'
    let counted = votes_get s'.height s'.round VoteType.prevote >>= count_prevotes
    if flag then counted else pure false

  abbrev pub precommit_quorum : VoteSet → Option (Hash × ℕ) → M PrecommitRes
  precommit_quorum set none = do
    s ← get
    let tv = if cal_all_vote s set.count then 0 else get_precommit s.params.timer
    when (s.step == Step.precommit) (set_timer tv Step.precommit_wait)
    pure PrecommitRes.above
  precommit_quorum set (some (hash, _)) =
      if is_empty hash
      then pure PrecommitRes.nil
      else (set_polc hash set >> pure PrecommitRes.proposal)

  abbrev pub count_precommits : Option VoteSet → M PrecommitRes
  count_precommits none = pure PrecommitRes.above
  count_precommits (some set) = do
    s ← get
    if cal_above_threshold s set.count
        then precommit_quorum set (quorum_entry s set)
        else pure PrecommitRes.below

  unfoldable pub check_precommit_count : M PrecommitRes
  check_precommit_count = do
    s ← get
    let (flag, s') = count_rounds (false, s) s.votes.precommit_count
    modify λ _. s'
    let counted = votes_get s'.height s'.round VoteType.precommit >>= count_precommits
    if flag then counted else pure PrecommitRes.below

  abbrev pub verified : Option VerifyResp → M VerifyResult
  verified none = do
    s ← get
    set_timer (get_prevote s.params.timer * verify_await_coef) Step.verify_wait
    pure VerifyResult.undetermined
  verified (some resp) =
      if resp.is_pass then pure VerifyResult.approved else (clean_polc >> pure VerifyResult.failed)

  abbrev pub verify_lock : Bft → Option LockStatus → M VerifyResult
  verify_lock s none = pure VerifyResult.approved
  verify_lock s (some lock) = verified (lookup lock.round s.verify_results)

  -- `check_verify`, in a build with `verify_req`
  unfoldable pub check_verify : M VerifyResult
  check_verify = do s ← get; verify_lock s s.lock_status
