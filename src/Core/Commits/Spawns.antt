-- ===== src/Core/Commits/Spawns.antt =====
-- The commit that `handle_commit` and `handle_precommit` of src/algorithm.rs spawn.
use bft_rs.Prelude.{
  ◌<◌, ◌≡◌, refl, ◌∙◌, ◌⊎◌, ◌≢◌, BftResult, inl, inr, Bool, true, false, Option, some, none, ok,
  ◌∷◌, arith, add64, ltb, if◌then◌else◌, not_ready, should_not_happen,
}
use bft_rs.Objects.{Block, Commit, LockStatus, PrecommitRes, Proof, Step, SignedProposal, VoteType}
use bft_rs.Env.{Env, LruLaws}
use bft_rs.Checks.{check_proof}
use bft_rs.Collect.Proposals
use bft_rs.Collect.Blocks
use bft_rs.Machine.State.{Bft, Effect}
use bft_rs.Machine.Monad.{◌>>◌, unwrap, M, ◌>>=◌, need, modify}
use bft_rs.Machine.Access.{
  generate_proof, proposals_get, blocks_get, set_proof, change_to_step, emit,
}
use bft_rs.Core.Counting.{check_precommit_count}
use bft_rs.Core.Height.Messages.{locking_of}
use bft_rs.Core.Height.Events.{stays, Stays-Locks}
use bft_rs.Core.Height.Handlers.{check_precommit_count-Keeps}
use bft_rs.Core.Commits.Invariant.{TalliedUnder}
use bft_rs.Core.Commits.{check_precommit_count-accepted}
use bft_rs.Core.Commits.Within.{Within, Within-Keeps, tallied_frame, tallied_locks}
use bft_rs.Core.Height.Loop.{Stays-Locking}
use bft_rs.Core.Handlers.{handle_commit, handle_precommit, commit_of}

module _ ⦃env : Env⦄ where
  -- The effects after a call that spawns a commit with a proof, or fails without an effect.
  abbrev pub Spawns : Bft → Proof → BftResult (Unit {0}) × Bft → Type 0
  Spawns s proof (r, s') =
      ((s'.effects ≡ s.effects) × (r ≢ ok tt))
      ⊎ ((c : Commit) × (s'.effects ≡ Effect.spawn_commit c ∷ s.effects)
          × (c.height ≡ s.height)
          × (c.proof ≡ proof))

  -- The end of `handle_commit`, on the block that the cache has.
  abbrev commit_block : Bft → Proof → SignedProposal → Option Block → M (Unit {0})
  commit_block s proof p found = need should_not_happen found >>= λ block.
      emit (Effect.spawn_commit (commit_of s block proof p.proposal))
      >> modify (λ t. record t {
        last_commit_round = some t.round;
        last_commit_block_hash = some p.proposal.block_hash;
      })

  -- The part of `handle_commit` after the lookup of the proposal.
  abbrev commit_proposal : Bft → Proof → Option SignedProposal → M (Unit {0})
  commit_proposal s proof found = need not_ready found >>= λ p.
      blocks_get s.height p.proposal.block_hash >>= λ stored. commit_block s proof p stored

  with_block :
      (s s₁ : Bft) (proof : Proof) (p : SignedProposal) (found : Option Block)
      → s₁.effects ≡ s.effects
      → Spawns s proof (commit_block s proof p found s₁)
  unfolding ◌>>=◌
  with_block s s₁ proof p none e = inl (e, λ h. ground (arith, h))
  with_block s s₁ proof p (some block) e =
      inr (commit_of s block proof p.proposal, rw e refl, refl, refl)

  with_proposal :
      (s s₁ : Bft) (proof : Proof) (found : Option SignedProposal)
      → s₁.effects ≡ s.effects
      → Spawns s proof (commit_proposal s proof found s₁)
  unfolding blocks_get ◌>>=◌
  with_proposal s s₁ proof none e = inl (e, λ h. ground (arith, h))
  with_proposal s s₁ proof (some p) e =
      let (found, c) = Blocks.get_block s.height p.proposal.block_hash s₁.blocks in
      with_block s (record s₁ { blocks = c }) proof p found e

  same_effects :
      (b : Bool) (s t : Bft) → t.effects ≡ s.effects → (if b then t else s).effects ≡ s.effects
  same_effects true s t e = e
  same_effects false s t e = refl

  with_lock :
      (s : Bft) (l : Option LockStatus) (lock : LockStatus)
      → l ≡ some lock
      → Spawns s (generate_proof s lock) (
          (unwrap l >>= λ k.
          set_proof (generate_proof s k)
          >> (proposals_get s.height s.round >>= commit_proposal s (generate_proof s k)))
            s)
  unfolding proposals_get set_proof ◌>>=◌
  with_lock s l lock e =
      let proof = generate_proof s lock in
      let s₁ : Bft = (set_proof proof s).1 in
      let (found, c) = Proposals.get_proposal s.height s.round s₁.proposals in
      rw e (
        with_proposal s (record s₁ { proposals = c }) proof found
          (same_effects (ltb s.proof.height proof.height) s (record s { proof = proof }) refl))

  -- `handle_commit` of a locked node: it fails without an effect, or spawns the commit of a block of
  -- its height with the proof for the lock.
  handle_commit-spawns :
      (s : Bft) (lock : LockStatus)
      → s.lock_status ≡ some lock
      → Spawns s (generate_proof s lock) (handle_commit s)
  unfolding handle_commit ◌>>=◌
  handle_commit-spawns s lock locked = with_lock s s.lock_status lock locked

  -- The same of `handle_precommit`, when the count of the precommits ends in a proposal.
  handle_precommit-spawns :
      (s : Bft) (lock : LockStatus)
      → (check_precommit_count s).0 ≡ ok PrecommitRes.proposal
      → (check_precommit_count s).1.lock_status ≡ some lock
      → let s' = (check_precommit_count s).1 in
        Spawns s' (generate_proof s' lock) (handle_precommit s)
  unfolding handle_precommit change_to_step generate_proof ◌>>=◌
  handle_precommit-spawns s lock h locked =
      let s' : Bft = record (check_precommit_count s).1 { step = Step.commit } in
      rw h (handle_commit-spawns s' lock locked)

  -- What `handle_precommit` does when the count of the precommits ends in a proposal: it fails
  -- without an effect of its own, or spawns one commit, of the node's height and with a proof that
  -- `check_proof` accepts for the next height.
  abbrev pub CommitsOrFails : Bft → Type 0
  CommitsOrFails t =
      let before = (check_precommit_count t).1.effects in
      let (r, t') = handle_precommit t in
      ((t'.effects ≡ before) × (r ≢ ok tt))
      ⊎ ((c : Commit) × (t'.effects ≡ Effect.spawn_commit c ∷ before)
          × (c.height ≡ t.height)
          × (check_proof c.proof (add64 c.height 1) t.authority_manage.authorities ≡ true))

module _ ⦃env : Env⦄ (laws : LruLaws env) where
  pub tallied-CommitsOrFails :
      (t : Bft)
      → 0 < t.height
      → TalliedUnder laws t
      → (check_precommit_count t).0 ≡ ok PrecommitRes.proposal
      → CommitsOrFails t
  tallied-CommitsOrFails t pos (tallied, ready, room) h =
      let (lock, locked, accepted) =
        check_precommit_count-accepted t pos ready.fits
          (λ round set found. tallied round VoteType.precommit set found) h in
      let same = (check_precommit_count-Keeps (stays t.height) (Stays-Locks t.height)).at t refl in
      elim (handle_precommit-spawns t lock h locked) [
        | inl failed ↦ inl failed
        | inr (c, sent, height, proof) ↦ inr (c, sent, height ∙ same, rw (height, proof) accepted)
      ]

  -- Along any run of the main loop that stays at a height above 0, whatever messages and timeouts it
  -- takes: `handle_precommit`, when the count of the precommits ends in a proposal, fails without an
  -- effect of its own, or spawns one commit, of the node's height and with a proof that `check_proof`
  -- accepts for the next height. At the start of the run every set of votes of the height is
  -- tallied, the authorities are the present ones, have different addresses and less than 2 ^ 64 in
  -- weight, and the caches have room.
  Within-handle_precommit :
      (s t : Bft)
      → 0 < s.height
      → TalliedUnder laws s
      → Within s t
      → (check_precommit_count t).0 ≡ ok PrecommitRes.proposal
      → CommitsOrFails t
  Within-handle_precommit s t pos at run h =
      let frame = tallied_frame laws in
      let now = Within-Keeps frame (locking_of frame (tallied_locks laws)) at run in
      let same : t.height ≡ s.height =
        Within-Keeps (stays s.height) (Stays-Locking s.height) refl run in
      tallied-CommitsOrFails t (rw same pos) now h
