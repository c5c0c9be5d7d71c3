-- ===== src/Core/Entry/Safety.antt =====
-- The commits of one node, and of two, over any number of heights: `handle_precommit` and
-- `check_precommit_count` of src/algorithm.rs.
use bft_rs.Prelude.{◌^◌, ◌<◌, ◌≡◌, ◌↔◌, some, ok}
use bft_rs.Objects.{LockStatus, PrecommitRes, Proposal}
use bft_rs.Env.{Env, LruLaws}
use bft_rs.Weight.Quorum.{total_of}
use bft_rs.Machine.State.{Bft}
use bft_rs.Machine.Access.{generate_proof}
use bft_rs.Core.Counting.{check_precommit_count}
use bft_rs.Core.Commits.Spawns.{CommitsOrFails, tallied-CommitsOrFails}
use bft_rs.Core.Commits.Fork.{Own, peer, AgreeOrFork, counted-AgreeOrFork}
use bft_rs.Checks.Votes.{check_lock_votes}
use bft_rs.Core.Justified.Offers.{IsOffered, offered-accepted}
use bft_rs.Core.Entry.Climbs.{Climbs, IsSound, Climbs-IsSound}

module _ ⦃env : Env⦄ (laws : LruLaws env) where
  -- Along any run of the main loop over any number of heights, whatever messages, timeouts and
  -- statuses it takes, but no reset: `handle_precommit`, when the count of the precommits ends in a
  -- proposal, fails without an effect of its own, or spawns one commit, of the node's height and with
  -- a proof that `check_proof` accepts for the next height. Where a status or the wait of a commit
  -- leads to another height, the authorities of the status have different addresses and less than
  -- 2 ^ 64 in weight, the height is above 0 and neither the status' nor that of the old authorities,
  -- and the block of a cached proposal of its round 0 is cached. At the start the same holds of the
  -- present authorities, a lock is justified, every set of votes of the height, which is a 64-bit
  -- number above 0, is tallied, and the caches have room.
  pub Climbs-handle_precommit :
      (s t : Bft)
      → IsSound laws s
      → Climbs s t
      → (check_precommit_count t).0 ≡ ok PrecommitRes.proposal
      → CommitsOrFails t
  Climbs-handle_precommit s t at run counts =
      let now = Climbs-IsSound laws at run in
      tallied-CommitsOrFails laws t now.pos now.justified.0 counts

  -- Along any run of the main loop over any number of heights, under the conditions on it and its
  -- start under which the sets of votes are tallied and a lock is justified: a node that receives a
  -- proposal with the lock round and the lock votes of the node's lock accepts them in
  -- `check_lock_votes` if and only if the proposal is for the locked block. The receiver has the same
  -- authorities, is at the proposal's height or the next one, and has room in its caches.
  pub Climbs-offered :
      (s t r : Bft) (lock : LockStatus) (p : Proposal)
      → IsSound laws s
      → Climbs s t
      → t.lock_status ≡ some lock
      → IsOffered laws t.authority_manage.authorities t.height lock p r
      → ((check_lock_votes p p.block_hash r).0 ≡ ok tt) ↔ (p.block_hash ≡ lock.block_hash)
  Climbs-offered s t r lock p at run locked offered =
      offered-accepted laws t.authority_manage.authorities t.height lock p r
        ((Climbs-IsSound laws at run).justified.1 lock locked) offered

module _ (env : Env) (own : Own) (laws : LruLaws env) (peer_laws : LruLaws (peer env own)) where
  -- Two nodes of the same build, with keys, checks of blocks and random bytes of their own, have each
  -- run the main loop over any number of heights, on messages, timeouts and statuses of their own but
  -- no reset, and are at the same height under the same authorities, of less than 2 ^ 62 in weight.
  -- If for both the count of the precommits ends in a proposal to commit, then each is locked, and
  -- either both locks are on one block, or more than a third of the weight is held by authorities
  -- whose signatures on two different precommits of the height are both known. The conditions on each
  -- run and its start are those under which its sets of votes are tallied.
  pub Climbs-AgreeOrFork :
      (s t : Bft ⦃env = env⦄) (s' t' : Bft ⦃env = peer env own⦄)
      → IsSound ⦃env = env⦄ laws s
      → IsSound ⦃env = peer env own⦄ peer_laws s'
      → Climbs ⦃env = env⦄ s t
      → Climbs ⦃env = peer env own⦄ s' t'
      → t.height ≡ t'.height
      → t.authority_manage.authorities ≡ t'.authority_manage.authorities
      → total_of t.authority_manage.authorities < 2 ^ 62
      → (check_precommit_count ⦃env = env⦄ t).0 ≡ ok PrecommitRes.proposal
      → (check_precommit_count ⦃env = peer env own⦄ t').0 ≡ ok PrecommitRes.proposal
      → let u = (check_precommit_count ⦃env = env⦄ t).1 in
        let u' = (check_precommit_count ⦃env = peer env own⦄ t').1 in
        (lock : LockStatus) × (lock' : LockStatus) × (u.lock_status ≡ some lock)
        × (u'.lock_status ≡ some lock')
        × AgreeOrFork ⦃env = env⦄ t.authority_manage.authorities
            (generate_proof ⦃env = env⦄ u lock)
            (generate_proof ⦃env = peer env own⦄ u' lock')
  Climbs-AgreeOrFork s t s' t' at at' run run' same_height same_list small counts counts' =
      let now = Climbs-IsSound ⦃env = env⦄ laws at run in
      let now' = Climbs-IsSound ⦃env = peer env own⦄ peer_laws at' run' in
      counted-AgreeOrFork env own laws peer_laws t t' now.pos same_height same_list small
        now.justified.0 now'.justified.0 counts counts'
