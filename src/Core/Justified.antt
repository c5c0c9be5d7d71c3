-- ===== src/Core/Justified.antt =====
-- The votes behind a lock: whatever sets the lock of a node (src/algorithm.rs), its votes justify it.
pub mod Polc
pub mod Frames
pub mod Counts
pub mod Accepted
pub mod Takes
pub mod Runs
pub mod Offers
use bft_rs.Prelude.{ℕ, ◌*◌, ◌^◌, ◌<◌, ◌≡◌, some, List, [], All, mul64}
use bft_rs.Objects.{Node, LockStatus}
use bft_rs.Env.{Env}
use bft_rs.Weight.{get_total_weight, get_votes_weight}
use bft_rs.Checks.Votes.{lock_voters}
use bft_rs.Checks.Votes.Sound.{IsVetted, Fresh}
use bft_rs.Machine.State.{Bft}

module _ ⦃env : Env⦄ where
  -- The votes of a lock are for its block at its round, by authorities and with their signatures; no
  -- voter votes twice; and the voters have more than two thirds of the weight.
  pub record IsJustified (ns : List Node) (height : ℕ) (lock : LockStatus) : Type 0 where
    pub votes : All (IsVetted ns height lock.round lock.block_hash) lock.votes
    pub once : Fresh [] lock.votes
    pub quorum :
        mul64 (get_total_weight ns) 2 < mul64 (get_votes_weight ns (lock_voters lock.votes)) 3

  -- The lock of a node, if it has one, is justified under the present authorities.
  abbrev pub LockIsJustified : Bft → Type 0
  LockIsJustified s =
      (lock : LockStatus)
      → s.lock_status ≡ some lock
      → IsJustified s.authority_manage.authorities s.height lock
