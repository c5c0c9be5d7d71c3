-- ===== src/Core/Locking.antt =====
-- How a proposal and a quorum of prevotes change the lock.
use bft_rs.Prelude.{
  ◌<◌, ◌≤◌, ◌≡◌, refl, ◌⊎◌, true, false, none, some, arith, is_empty, Option-cases, inl, inr,
  Bool-cases, leb,
}
use bft_rs.Objects.{Hash, Proposal, LockStatus}
use bft_rs.Env.{Env}
use bft_rs.Collect.VoteSet.{VoteSet}
use bft_rs.Machine.State.{Bft}
use bft_rs.Machine.Monad.{◌>>=◌}
use bft_rs.Machine.Access.{set_polc, clean_polc}
use bft_rs.Core.Rounds.{set_proposal}
use bft_rs.Core.Counting.{lock_on}
use bft_rs.Core.Counting.Locks.{lock_of}

module _ ⦃env : Env⦄ where
  -- A locked node that takes a proposal stays locked, at no earlier round: either on the same lock,
  -- or on the proposal's block with the proposal's lock round and votes, which is then its block.
  pub set_proposal_lock :
      (p : Proposal) (s : Bft) (lock : LockStatus)
      → s.lock_status ≡ some lock
      → let s' = (set_proposal p s).1 in
        (lock' : LockStatus) × (s'.lock_status ≡ some lock')
        × (lock.round ≤ lock'.round)
        × ((lock' ≡ lock)
            ⊎ ((s'.block_hash ≡ some p.block_hash)
                × (lock'.block_hash ≡ p.block_hash)
                × (p.lock_round ≡ some lock'.round)
                × (lock'.votes ≡ p.lock_votes)))
  unfolding set_proposal ◌>>=◌
  set_proposal_lock p s lock locked = elim (Option-cases p.lock_round) [
    | inl free ↦ (lock, ground arith, omega arith, inl refl)
    | inr (r, at) ↦ (elim (Bool-cases (leb lock.round r)) [
      | inl later ↦ (
        record { block_hash = p.block_hash; round = r; votes = p.lock_votes },
        ground arith,
        ground arith,
        inr (ground arith, refl, at, refl),
      )
      | inr earlier ↦ (lock, ground arith, omega arith, inl refl)
    ])
  ]

  -- What a quorum of prevotes for a hash does to a locked node: at no later round than the lock's
  -- nothing; at a later one it drops the lock, if the hash is nil, or replaces it by the lock on
  -- that hash at the node's round.
  pub lock_on_locked :
      (hash : Hash) (set : VoteSet) (s : Bft) (lock : LockStatus)
      → s.lock_status ≡ some lock
      → let s' = (lock_on hash set s).1 in
        ((s.round ≤ lock.round) × (s' ≡ s))
        ⊎ ((lock.round < s.round)
            × (((is_empty hash ≡ true) × (s' ≡ record s { block_hash = none; lock_status = none }))
                ⊎ ((is_empty hash ≡ false)
                    × (s' ≡ record s {
                      block_hash = some hash;
                      lock_status = some (lock_of s hash set);
                    }))))
  unfolding lock_on set_polc clean_polc ◌>>=◌
  lock_on_locked hash set s lock locked = ground arith
