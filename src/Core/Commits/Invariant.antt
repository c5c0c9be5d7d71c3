-- ===== src/Core/Commits/Invariant.antt =====
-- The invariant of the votes that `check_and_save_vote` of src/utils.rs stores.
use bft_rs.Prelude.{ℕ, ◌≡◌, refl, sym, ◌∙◌, Bool, true, some, arith, inl, inr, Bool-cases}
use bft_rs.Objects.{SignedVote, VoteType}
use bft_rs.Objects.Kinds.{vote_type_beq_iff}
use bft_rs.Env.{Env, LruLaws}
use bft_rs.Collect.VoteSet
use bft_rs.Collect.VoteSet.{VoteSet}
use bft_rs.Collect.Votes.{VoteCollector, add_vote, get_voteset}
use bft_rs.Collect.Votes.View.{HasRoom, or_new}
use bft_rs.Collect.Votes.Refines.{is_for, add_vote-get_voteset}
use bft_rs.Checks.Save.{check_and_save_vote}
use bft_rs.Machine.State.{Bft}
use bft_rs.Machine.Access.{get_vote_weight}
use bft_rs.Core.Commits.Tally.{IsTallied}
use bft_rs.Core.Commits.Stored.{
  IsChecked, VotesAfter, AllTallied, HasAuthorities, added-IsTallied, save_vote-changes,
}

module _ ⦃env : Env⦄ (laws : LruLaws env) where
  is_for-parts :
      (v : SignedVote) (height round : ℕ) (t : VoteType)
      → is_for v height round t ≡ true
      → (v.vote.height ≡ height) × (v.vote.round ≡ round) × (v.vote.vote_type ≡ t)
  is_for-parts v height round t h = ground (arith, vote_type_beq_iff v.vote.vote_type t)

  same_read :
      {height height' round round' : ℕ} {t t' : VoteType} (c : VoteCollector)
      → height ≡ height'
      → round ≡ round'
      → t ≡ t'
      → (get_voteset height round t c).0 ≡ (get_voteset height' round' t' c).0
  same_read c at of_round kind = rw (at, of_round, kind) refl

  added-AllTallied :
      (s : Bft) (sv : SignedVote) (round : ℕ) (kind : VoteType) (set : VoteSet)
      → HasAuthorities s
      → HasRoom laws s.votes
      → AllTallied s
      → IsChecked s sv
      → (get_voteset s.height round kind
          (add_vote sv (get_vote_weight s sv.vote.height sv.vote.voter) s.height s.votes).1).0
        ≡ some set
      → IsTallied s.authority_manage.authorities s.height round kind set
  added-AllTallied s sv round kind set ready room tallied checked found =
      let weight = get_vote_weight s sv.vote.height sv.vote.voter in
      let c' = (add_vote sv weight s.height s.votes).1 in
      let (result, here, others, room') =
        add_vote-get_voteset laws sv weight s.height s.votes room in
      elim (Bool-cases (is_for sv s.height round kind)) [
        | inl mine ↦
            let (at, of_round, of_kind) = is_for-parts sv s.height round kind mine in
            let before = (get_voteset sv.vote.height sv.vote.round sv.vote.vote_type s.votes).0 in
            let old : (old_set : VoteSet)
                → before ≡ some old_set
                → IsTallied s.authority_manage.authorities s.height sv.vote.round sv.vote.vote_type
                    old_set =
              λ old_set e. tallied sv.vote.round sv.vote.vote_type old_set (rw at at e) in
            let added = added-IsTallied s sv before ready checked at old in
            let same : some (VoteSet.add sv weight (or_new before)).1 ≡ some set =
              sym here ∙ (same_read c' at of_round of_kind ∙ found) in
            let same' : (VoteSet.add sv weight (or_new before)).1 ≡ set = ground arith in
            rw (← of_round, ← of_kind, ← same') added
        | inr another ↦ elim (others s.height round kind another) [
          | inl kept ↦ tallied round kind set (sym kept ∙ found)
          | inr lost ↦ absurd (ground (arith, lost, found))
        ]
      ]

  -- The votes of the node's height are tallied, under conditions on the authorities and the
  -- caches.
  abbrev pub TalliedUnder : Bft → Type 0
  TalliedUnder s = AllTallied s × HasAuthorities s × HasRoom laws s.votes

  pub same_votes :
      (s s' : Bft)
      → s'.height ≡ s.height
      → s'.authority_manage ≡ s.authority_manage
      → s'.votes ≡ s.votes
      → TalliedUnder s
      → TalliedUnder s'
  same_votes s s' height manage e (tallied, ready, room) = (
    (λ round kind set found.
        rw (height, manage) (tallied round kind set (rw (height, e) at found))),
    record {
      present = rw (height, manage) ready.present;
      distinct = rw manage ready.distinct;
      fits = rw manage ready.fits;
    },
    rw e room,
  )

  -- A call that stores a checked vote, or none.
  pub votes_after :
      (s s' : Bft) (sv : SignedVote)
      → s'.height ≡ s.height
      → s'.authority_manage ≡ s.authority_manage
      → VotesAfter s sv s'.votes
      → TalliedUnder s
      → TalliedUnder s'
  votes_after s s' sv height manage (inl e) at = same_votes s s' height manage e at
  votes_after s s' sv height manage (inr (checked, e)) (tallied, ready, room) =
      let (result, here, others, room') =
        add_vote-get_voteset laws sv (get_vote_weight s sv.vote.height sv.vote.voter) s.height
          s.votes room in
      (
        (λ round kind set found.
            rw (height, manage)
              (added-AllTallied s sv round kind set ready room tallied checked
                (rw (height, e) at found))),
        record {
          present = rw (height, manage) ready.present;
          distinct = rw manage ready.distinct;
          fits = rw manage ready.fits;
        },
        rw e room',
      )

  -- `check_and_save_vote`, on any vote and whatever it results in, keeps every set of votes of
  -- the node's height tallied, and the conditions on the authorities and the caches under which it
  -- does so.
  pub check_and_save_vote-AllTallied :
      (sv : SignedVote) (need_wal : Bool) (s : Bft)
      → HasAuthorities s
      → HasRoom laws s.votes
      → AllTallied s
      → let s' = (check_and_save_vote sv need_wal s).1 in
        AllTallied s' × HasAuthorities s' × HasRoom laws s'.votes
  check_and_save_vote-AllTallied sv need_wal s ready room tallied =
      let (height, manage, votes) = save_vote-changes sv need_wal s in
      votes_after s (check_and_save_vote sv need_wal s).1 sv height manage votes
        (tallied, ready, room)
