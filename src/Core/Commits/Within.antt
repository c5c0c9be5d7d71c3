-- ===== src/Core/Commits/Within.antt =====
-- The stored votes through the main loop of src/algorithm.rs, as long as the node stays at its
-- height.
use bft_rs.Prelude.{
  ℕ, ◌<◌, ◌≡◌, refl, sym, ◌∙◌, true, false, some, ok, arith, add64, inl, inr, BftResult-cases,
}
use bft_rs.Objects.{Address, Hash, Step, SignedVote, VoteType, LockStatus, PrecommitRes}
use bft_rs.Objects.Kinds.{step_eq}
use bft_rs.Env.{Env, LruLaws}
use bft_rs.Collect.Votes.{add_vote}
use bft_rs.Collect.Votes.Reads.{get_voteset-reads}
use bft_rs.Checks.{check_proof}
use bft_rs.Checks.Votes.{check_vote, vet_vote}
use bft_rs.Checks.Votes.Sound.{vet_vote-ok}
use bft_rs.Checks.Save.{check_and_save_vote}
use bft_rs.Machine.State.{Bft}
use bft_rs.Machine.Monad.{◌>>=◌, ◌>>◌, handle_err, pure}
use bft_rs.Machine.Monad.Keeps.{Keeps}
use bft_rs.Machine.Access.{votes_get, votes_add, generate_proof, get_vote_weight}
use bft_rs.Core.Replay.{Event, message, timeout, handle_event}
use bft_rs.Core.Counting.{check_precommit_count}
use bft_rs.Core.Height.{Frame, Locks}
use bft_rs.Core.Height.Messages.{Locking, locking_of}
use bft_rs.Core.Height.Events.{IsPlain, stays, process-Keeps, timeout-Keeps}
use bft_rs.Core.Height.Loop.{Stays-Locking, timeout_process-leads}
use bft_rs.Core.Commits.{check_precommit_count-accepted}
use bft_rs.Core.Commits.Stored.{IsChecked, VotesAfter, save_vote-changes}
use bft_rs.Core.Commits.Invariant.{TalliedUnder, same_votes, votes_after}

module _ ⦃env : Env⦄ where
  stored_then :
      (v : SignedVote) (a : Address) (s : Bft)
      → let s' =
          ((handle_err (votes_add v (get_vote_weight s v.vote.height v.vote.voter)) >> pure a)
            s).1 in
        (s'.height ≡ s.height)
        × (s'.authority_manage ≡ s.authority_manage)
        × (s'.votes
            ≡ (add_vote v (get_vote_weight s v.vote.height v.vote.voter) s.height s.votes).1)
  unfolding votes_add ◌>>=◌
  stored_then v a s = ground arith

  pub check_vote-changes :
      (h r : ℕ) (hash : Hash) (v : SignedVote) (s : Bft)
      → let s' = (check_vote h r hash v s).1 in
        (s'.height ≡ s.height)
        × (s'.authority_manage ≡ s.authority_manage)
        × VotesAfter s v s'.votes
  unfolding check_vote ◌>>=◌
  check_vote-changes h r hash v s = elim (BftResult-cases (vet_vote s h r hash v)) [
    | inl (a, e) ↦
        let vetted = (vet_vote-ok s h r hash v a e).1 in
        let checked : IsChecked s v = record {
          signed = vetted.signed;
          voter = λ at. rw (vetted.at_height) vetted.listed;
        } in
        let stored = stored_then v a s in rw e (ground arith)
    | inr (inl (x, e)) ↦ rw e (refl, refl, inl refl)
    | inr (inr e) ↦ rw e (refl, refl, inl refl)
  ]

module _ ⦃env : Env⦄ (laws : LruLaws env) where
  votes_get-TalliedUnder : (h r : ℕ) (t : VoteType) → Keeps (TalliedUnder laws) (votes_get h r t)
  unfolding votes_get
  votes_get-TalliedUnder h r t = record {
    at = λ s (tallied, ready, room).
        let (same, room') = get_voteset-reads laws h r t s.votes room in
        (
          (λ round kind set found. tallied round kind set (sym (same s.height round kind) ∙ found)),
          record { present = ready.present; distinct = ready.distinct; fits = ready.fits },
          room',
        );
  }

  pub tallied_locks : Locks (TalliedUnder laws)
  tallied_locks s s' lock h b m v l k at = same_votes laws s s' h m v at

  pub tallied_frame : Frame (TalliedUnder laws)
  tallied_frame = record {
    move = λ s s' h b m v l k at. same_votes laws s s' h m v at;
    unlocks = λ s s' h b m v l at. same_votes laws s s' h m v at;
    corrupts = λ s s' h b m v l at. same_votes laws s s' h m v at;
    reads = votes_get-TalliedUnder;
    stores = λ v w. record {
      at = λ s at.
          let (height, manage, votes) = save_vote-changes v w s in
          votes_after laws s (check_and_save_vote v w s).1 v height manage votes at;
    };
    vets = λ h r hash v. record {
      at = λ s at.
          let (height, manage, votes) = check_vote-changes h r hash v s in
          votes_after laws s (check_vote h r hash v s).1 v height manage votes at;
    };
  }

module _ ⦃env : Env⦄ where
  -- An event that leaves the node at its height: neither a status, nor a reset, nor the timeout that
  -- ends a commit's wait.
  abbrev pub StaysAt : Event → Type 0
  StaysAt (message now m) = IsPlain m
  StaysAt (timeout now t) = step_eq.beq t.step Step.commit_wait ≡ false

  -- The states of the main loop under such events.
  pub data Within (s : Bft) : Bft → Type 0 where
    start : Within s s
    event : {t : Bft} (e : Event) → StaysAt e → Within s t → Within s (handle_event e t).1

  pub handle_event-Keeps :
      {P : Bft → Type 0} (frame : Frame P) (locking : Locking P) (e : Event)
      → StaysAt e
      → (s : Bft) → P s
      → P (handle_event e s).1
  unfolding handle_event ◌>>=◌
  handle_event-Keeps frame locking (message now m) stay s at =
      (process-Keeps frame locking m true stay).at (record s { clock = now })
        (frame.move s (record s { clock = now }) refl refl refl refl refl refl at)
  handle_event-Keeps {P} frame locking (timeout now t) stay s at =
      timeout_process-leads {Q = P} frame t true (λ s at. at) (timeout-Keeps frame t.step stay).at
        (record s { clock = now })
        (frame.move s (record s { clock = now }) refl refl refl refl refl refl at)

  pub Within-Keeps : {P : Bft → Type 0} {s t : Bft} → Frame P → Locking P → P s → Within s t → P t
  Within-Keeps frame locking at Within.start = at
  Within-Keeps frame locking at (Within.event {t = t} e stay run) =
      handle_event-Keeps frame locking e stay t (Within-Keeps frame locking at run)

module _ ⦃env : Env⦄ (laws : LruLaws env) where
  -- Along any run of the main loop that stays at a height above 0, whatever messages and timeouts it
  -- takes: a count of the precommits that ends in a proposal to commit has locked the node, and the
  -- proof that `generate_proof` makes of the lock is accepted by `check_proof` for the next height.
  -- At the start of the run every set of votes of the height is tallied, the authorities are the
  -- present ones, have different addresses and less than 2 ^ 64 in weight, and the caches have room.
  Within-accepted :
      (s t : Bft)
      → 0 < s.height
      → TalliedUnder laws s
      → Within s t
      → (check_precommit_count t).0 ≡ ok PrecommitRes.proposal
      → let t' = (check_precommit_count t).1 in
        (lock : LockStatus) × (t'.lock_status ≡ some lock)
        × (check_proof (generate_proof t' lock) (add64 t'.height 1) t.authority_manage.authorities
            ≡ true)
  Within-accepted s t pos at run h =
      let (tallied, ready, room) =
        Within-Keeps (tallied_frame laws) (locking_of (tallied_frame laws) (tallied_locks laws)) at
          run in
      let same : t.height ≡ s.height =
        Within-Keeps (stays s.height) (Stays-Locking s.height) refl run in
      check_precommit_count-accepted t (rw same pos) ready.fits
        (λ round set found. tallied round VoteType.precommit set found) h
