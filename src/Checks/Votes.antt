-- ===== src/Checks/Votes.antt =====
-- `check_vote` and `check_lock_votes` of src/utils.rs: the votes that justify a locked proposal.
pub mod Sound
use bft_rs.Prelude.{
  ℕ, Bool, true, false, ◌||◌, not, Option, none, some, List, [], ◌∷◌, map, BftResult, ok, err,
  panic, should_not_happen, check_lock_votes_failed, ltb, ◌==◌, nat_eq, list_eq, if◌then◌else◌,
  sub64,
}
use bft_rs.Objects.{Address, Hash, Node, SignedVote, Proposal}
use bft_rs.Env.{Env}
use bft_rs.Weight.{contains}
use bft_rs.Checks.{vote_hash, below_quorum, is_authority}
use bft_rs.Machine.State.{Bft}
use bft_rs.Machine.Monad.{M, pure, raise, get, lift, ◌>>=◌, ◌>>◌, done, when, handle_err, need}
use bft_rs.Machine.Access.{get_authorities, get_vote_weight, votes_add}

-- The voters of lock votes.
abbrev pub lock_voters : List SignedVote → List Address
lock_voters = map (λ (v : SignedVote). v.vote.voter)

module _ ⦃env : Env⦄ where
  open env use {check_sig}

  abbrev recovered : Address → Option Address → BftResult Address
  recovered voter none = err check_lock_votes_failed
  recovered voter (some address) =
      if address == voter then ok address else err check_lock_votes_failed

  abbrev vet_signature : List Node → SignedVote → BftResult Address
  vet_signature authorities v =
      if is_authority authorities v.vote.voter
      then recovered v.vote.voter (check_sig v.signature (vote_hash v.vote))
      else err check_lock_votes_failed

  -- The tests of `check_vote`. None of them changes the state.
  unfoldable pub vet_vote : Bft → ℕ → ℕ → Hash → SignedVote → BftResult Address
  vet_vote s height round block_hash v =
      if ltb height (sub64 s.height 1)
      then err should_not_happen
      else if not (v.vote.height == height) || not (v.vote.round == round)
      then err check_lock_votes_failed
      else if not (v.vote.block_hash == block_hash)
      then err check_lock_votes_failed
      else (elim (get_authorities s height) [
        | ok authorities ↦ vet_signature authorities v
        | err e ↦ err e
        | BftResult.panic ↦ panic
      ])

  -- `check_vote`: a vote that passes is put into the cache, whether or not that succeeds.
  unfoldable pub check_vote : ℕ → ℕ → Hash → SignedVote → M Address
  check_vote height round block_hash v = do
    s ← get
    address ← lift (vet_vote s height round block_hash v)
    handle_err (votes_add v (get_vote_weight s height v.vote.voter))
    pure address

  -- The loop over `lock_votes`; `seen` are the keys of `map`.
  unfoldable pub check_each : ℕ → ℕ → Hash → List Address → List SignedVote → M (Unit {0})
  check_each height round block_hash seen [] = done
  check_each height round block_hash seen (v ∷ vs) =
      check_vote height round block_hash v >>= λ voter.
      if contains seen voter
      then raise check_lock_votes_failed
      else check_each height round block_hash (voter ∷ seen) vs

  abbrev pub check_justified : Proposal → Hash → Option ℕ → M (Unit {0})
  check_justified proposal block_hash none = done
  check_justified proposal block_hash (some lock_round) = do
    s ← get
    check_each proposal.height lock_round block_hash [] proposal.lock_votes
    authorities ← lift (get_authorities s proposal.height)
    if below_quorum authorities (lock_voters proposal.lock_votes)
        then raise check_lock_votes_failed
        else done

  -- `check_lock_votes`
  unfoldable pub check_lock_votes : Proposal → Hash → M (Unit {0})
  check_lock_votes proposal block_hash = do
    s ← get
    when (ltb proposal.height (sub64 s.height 1) || ltb s.height proposal.height)
        (raise should_not_happen)
    check_justified proposal block_hash proposal.lock_round
