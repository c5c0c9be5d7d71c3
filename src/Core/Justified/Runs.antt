-- ===== src/Core/Justified/Runs.antt =====
-- The votes behind a lock through the main loop of src/algorithm.rs, as long as the node stays at its
-- height.
use bft_rs.Prelude.{ℕ, ◌^◌, ◌<◌, ◌≡◌, refl, sym, ◌∙◌, Bool, some, ok}
use bft_rs.Objects.{Bytes, Block, Proposal, SignedProposal}
use bft_rs.Env.{Env, LruLaws}
use bft_rs.Checks.Votes.{check_lock_votes}
use bft_rs.Checks.Votes.Sound.{check_lock_votes-ok}
use bft_rs.Checks.Save.{check_and_save_proposal}
use bft_rs.Machine.State.{Bft}
use bft_rs.Machine.Monad.{◌>>◌}
use bft_rs.Machine.Access.{authorities_for}
use bft_rs.Machine.Monad.Keeps.{Keeps, Keeps-both}
use bft_rs.Machine.Monad.Reads.{bind-gives}
use bft_rs.Core.Process.{on_proposal}
use bft_rs.Core.Height.{Frame}
use bft_rs.Core.Height.Checks.{save_proposal-Keeps}
use bft_rs.Core.Height.Messages.{Locking}
use bft_rs.Core.Height.Events.{Stays, stays}
use bft_rs.Core.Height.Loop.{Stays-Locking}
use bft_rs.Core.Commits.Invariant.{TalliedUnder}
use bft_rs.Core.Commits.Within.{Within, Within-Keeps}
use bft_rs.Core.Justified.{IsJustified, LockIsJustified}
use bft_rs.Core.Justified.Frames.{Frame-both}
use bft_rs.Core.Justified.Counts.{Justified, justified, prevotes-Justified, precommits-Justified}
use bft_rs.Core.Justified.Accepted.{save_proposal-ok}
use bft_rs.Core.Justified.Takes.{At, at_frame, offer, IsAccepted, on_proposal-At}

module _ ⦃env : Env⦄ (laws : LruLaws env) where
  -- The lock votes of a proposal that is saved justify the lock that it offers.
  offer-IsJustified :
      (s : Bft) (p : Proposal) (lock_round : ℕ)
      → Justified laws s
      → p.height ≡ s.height
      → p.lock_round ≡ some lock_round
      → (check_lock_votes p p.block_hash s).0 ≡ ok tt
      → IsJustified s.authority_manage.authorities s.height
          (offer laws s.height s.authority_manage p lock_round)
  offer-IsJustified s p lock_round at here e passed =
      let (votes, once, quorum) = check_lock_votes-ok s p p.block_hash lock_round e passed in
      let present : authorities_for s p.height ≡ s.authority_manage.authorities =
        rw here at.0.1.present in
      record { votes = rw (present, here) at votes; once = once; quorum = rw present at quorum }

  module _ (height : ℕ) (fits : height < 2 ^ 64) where
    abbrev pub Held : Bft → Type 0
    Held s = Justified laws s × Stays height s

    takes-Held :
        (p : SignedProposal) (b : Block) (e : Bytes) (w : Bool)
        → Keeps Held (check_and_save_proposal p b e w >> on_proposal p.proposal)
    takes-Held p b e w = record {
      at = λ s at.
          let manage = s.authority_manage in
          let saved =
            (save_proposal-Keeps (at_frame laws height manage) p b e w).at s (at.0, (at.1, refl)) in
          let after : At laws height manage
              ((check_and_save_proposal p b e w >> on_proposal p.proposal) s).1 =
            bind-gives _ _ s saved λ u passed.
              let (range, votes) = save_proposal-ok s p b e w passed in
              let accepted : IsAccepted laws height manage p.proposal = record {
                range = rw at.1 at range;
                just = λ here lock_round offered.
                    let here' : p.proposal.height ≡ s.height = here ∙ sym at.1 in
                    rw at.1 at
                      (offer-IsJustified s p.proposal lock_round at.0 here' offered (votes here'));
              } in
              on_proposal-At laws height manage fits p.proposal accepted in
          (after.0, after.1.0);
    }

    pub held : Frame Held
    held = Frame-both (justified laws) (stays height)

    pub held_locking : Locking Held
    held_locking = record {
      counts_prevotes =
          Keeps-both _ (prevotes-Justified laws) (Stays-Locking height).counts_prevotes;
      counts_precommits =
          Keeps-both _ (precommits-Justified laws) (Stays-Locking height).counts_precommits;
      takes = takes-Held;
    }

  -- Along any run of the main loop that stays at a height, whatever messages and timeouts it takes:
  -- if the node is locked, its lock is justified. Its votes are for the locked block at the lock's
  -- round, by authorities and with their signatures; no voter votes twice; and the voters have more
  -- than two thirds of the weight, in 64-bit arithmetic. This holds if the height is a 64-bit number,
  -- and if at the start a lock is justified, every set of votes of the height is tallied, the
  -- authorities are the present ones, have different addresses and less than 2 ^ 64 in weight, and
  -- the caches have room.
  pub Within-LockIsJustified :
      (s t : Bft)
      → s.height < 2 ^ 64
      → TalliedUnder laws s
      → LockIsJustified s
      → Within s t
      → LockIsJustified t
  Within-LockIsJustified s t fits tallied lock run =
      (Within-Keeps (held s.height fits) (held_locking s.height fits) ((tallied, lock), refl)
        run).0.1
