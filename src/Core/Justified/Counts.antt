-- ===== src/Core/Justified/Counts.antt =====
-- The locks that the counts of src/algorithm.rs make are justified.
use bft_rs.Prelude.{
  ℕ, ◌<◌, ◌≡◌, refl, ◌∙◌, Bool, true, false, Option, none, some, arith, mul64, is_empty,
}
use bft_rs.Objects.{AuthorityManage, Hash, LockStatus, PrecommitRes, Step, VoteType}
use bft_rs.Env.{Env, LruLaws}
use bft_rs.Weight.{get_total_weight}
use bft_rs.Collect.VoteSet
use bft_rs.Collect.VoteSet.{VoteSet}
use bft_rs.Collect.Votes
use bft_rs.Machine.State.{Bft}
use bft_rs.Machine.Monad.{modify, when, pure, ◌>>=◌, ◌>>◌}
use bft_rs.Machine.Monad.Keeps.{
  Keeps, keeps_rules, Keeps-modify, Keeps-bind, Keeps-pure, bind-leads,
}
use bft_rs.Machine.Monad.Reads.{if-at}
use bft_rs.Machine.Access.{set_polc, clean_polc, set_timer, votes_get, cal_above_threshold}
use bft_rs.Core.Counting.{
  count_rounds, check_prevote_count, check_precommit_count, quorum_entry, lock_on, prevote_quorum,
  count_prevotes, precommit_quorum, count_precommits,
}
use bft_rs.Core.Counting.Locks.{find-mem}
use bft_rs.Core.Height.{Frame, access_rules}
use bft_rs.Core.Height.Handlers.{counted-move}
use bft_rs.Core.Commits.Tally.{IsTallied}
use bft_rs.Core.Commits.Invariant.{TalliedUnder, same_votes}
use bft_rs.Core.Commits.Within.{tallied_frame}
use bft_rs.Core.Justified.{IsJustified, LockIsJustified}
use bft_rs.Core.Justified.Polc.{extract_polc-IsJustified}
use bft_rs.Core.Justified.Frames.{Frame-both, Pinned, lock_frame}

module _ ⦃env : Env⦄ (laws : LruLaws env) where
  -- The votes are tallied, and the lock is justified.
  abbrev pub Justified : Bft → Type 0
  Justified s = TalliedUnder laws s × LockIsJustified s

  pub justified : Frame Justified
  justified = Frame-both (tallied_frame laws) lock_frame

  -- At this height, under these authorities and at this round.
  abbrev At : ℕ → AuthorityManage → ℕ → Bft → Type 0
  At height manage round s = Justified s × Pinned height manage s × (s.round ≡ round)

  -- Another lock that is justified.
  pub relocked :
      (s s' : Bft)
      → s'.height ≡ s.height
      → s'.authority_manage ≡ s.authority_manage
      → s'.votes ≡ s.votes
      → LockIsJustified s'
      → Justified s
      → Justified s'
  relocked s s' h m v lock (tallied, _) = (same_votes laws s s' h m v tallied, lock)

  relock :
      {height round : ℕ} {manage : AuthorityManage} (s s' : Bft)
      → s'.height ≡ s.height
      → s'.authority_manage ≡ s.authority_manage
      → s'.votes ≡ s.votes
      → s'.round ≡ s.round
      → LockIsJustified s'
      → At height manage round s
      → At height manage round s'
  relock s s' h m v r lock (just, (height, manage), round) =
      (relocked s s' h m v lock just, (h ∙ height, m ∙ manage), r ∙ round)

  -- The lock on a hash of this set.
  abbrev polc : ℕ → Hash → VoteSet → LockStatus
  polc round hash set = record {
    block_hash = hash;
    round = round;
    votes = VoteSet.extract_polc set hash;
  }

  module _ (height : ℕ) (manage : AuthorityManage) (round : ℕ) where
    set_polc-At :
        (hash : Hash) (set : VoteSet)
        → IsJustified manage.authorities height (polc round hash set)
        → Keeps (At height manage round) (set_polc hash set)
    unfolding set_polc
    set_polc-At hash set just = Keeps-modify _ λ s at.
        relock s _ refl refl refl refl
          (λ lock locked.
            let e : polc s.round hash set ≡ lock = ground arith in
            rw (← e, at.1.0, at.1.1, at.2) just)
          at

    clean_polc-At : Keeps (At height manage round) clean_polc
    unfolding clean_polc
    clean_polc-At =
        Keeps-modify _
          λ s at. relock s _ refl refl refl refl (λ lock locked. absurd (ground (arith, locked))) at

    forget-At : Keeps (At height manage round) (modify (λ s. record s { block_hash = none }))
    forget-At =
        Keeps-modify _ λ s at. relock s _ refl refl refl refl (λ lock locked. at.0.1 lock locked) at

    lock_on-At :
        (hash : Hash) (set : VoteSet)
        → IsJustified manage.authorities height (polc round hash set)
        → Keeps (At height manage round) (lock_on hash set)
    unfolding lock_on
    lock_on-At hash set just =
        let sets : (u : Unit {0}) → Keeps (At height manage round) (set_polc hash set) =
          λ u. set_polc-At hash set just in
        search (keeps_rules, sets, clean_polc-At, forget-At) depth 12

    prevote_quorum-At :
        (set : VoteSet) (found : Option (Hash × ℕ))
        → ((hash : Hash) (count : ℕ)
            → found ≡ some (hash, count)
            → IsJustified manage.authorities height (polc round hash set))
        → Keeps (At height manage round) (prevote_quorum set found)
    prevote_quorum-At set none just = search (keeps_rules)
    prevote_quorum-At set (some (hash, count)) just =
        let locks = lock_on-At hash set (just hash count refl) in search (keeps_rules, locks)

  -- A hash of a tallied set that has enough weight.
  entry-IsJustified :
      (t : Bft) (kind : VoteType) (set : VoteSet)
      → Justified t
      → IsTallied t.authority_manage.authorities t.height t.round kind set
      → (hash : Hash) (count : ℕ) → quorum_entry t set ≡ some (hash, count)
      → IsJustified t.authority_manage.authorities t.height (polc t.round hash set)
  unfolding cal_above_threshold
  entry-IsJustified t kind set at tallied hash count found =
      let (member, above) =
        find-mem (λ e. cal_above_threshold t e.1) set.votes_by_proposal (hash, count) found in
      let weighty : mul64 (get_total_weight t.authority_manage.authorities) 2 < mul64 count 3 =
        ground arith in
      extract_polc-IsJustified t.authority_manage.authorities t.height t.round kind hash set count
        (polc t.round hash set) tallied at.0.1.fits member weighty refl

  -- What is read is tallied.
  abbrev Read : VoteType → Bft → Option VoteSet → Type 0
  Read kind t found =
      (set : VoteSet)
      → found ≡ some set
      → IsTallied t.authority_manage.authorities t.height t.round kind set

  waits-Keeps :
      {A : Type 0} (b : Bool) (n : ℕ) (step : Step) (a : A)
      → Keeps Justified (when b (set_timer n step) >> pure a)
  waits-Keeps b n step a = search (keeps_rules, justified, access_rules) depth 12

  count_prevotes-at :
      (found : Option VoteSet) (t : Bft)
      → Justified t
      → Read VoteType.prevote t found
      → Justified (count_prevotes found t).1
  unfolding ◌>>=◌
  count_prevotes-at none t at read = at
  count_prevotes-at (some set) t at read =
      bind-leads {P = At t.height t.authority_manage t.round} {Q = Justified} _ _
        (prevote_quorum-At t.height t.authority_manage t.round set (quorum_entry t set)
          (entry-IsJustified t VoteType.prevote set at (read set refl)))
        (λ s k. k.0) (λ found s k. (waits-Keeps _ _ _ true).at s k.0) t (at, (refl, refl), refl)

  precommit_quorum-at :
      (t : Bft) (set : VoteSet) (found : Option (Hash × ℕ))
      → Justified t
      → ((hash : Hash) (count : ℕ)
          → found ≡ some (hash, count)
          → IsJustified t.authority_manage.authorities t.height (polc t.round hash set))
      → Justified (precommit_quorum set found t).1
  unfolding ◌>>=◌
  precommit_quorum-at t set none at just = (waits-Keeps _ _ _ PrecommitRes.above).at t at
  precommit_quorum-at t set (some (hash, count)) at just =
      if-at Justified (is_empty hash) _ _ t (λ e. at)
        (λ e.
          let sets =
            set_polc-At t.height t.authority_manage t.round hash set (just hash count refl) in
          ((Keeps-bind _ _ sets (λ _. Keeps-pure PrecommitRes.proposal)).at t
            (at, (refl, refl), refl)).0)

  count_precommits-at :
      (found : Option VoteSet) (t : Bft)
      → Justified t
      → Read VoteType.precommit t found
      → Justified (count_precommits found t).1
  unfolding ◌>>=◌
  count_precommits-at none t at read = at
  count_precommits-at (some set) t at read =
      if-at Justified (cal_above_threshold t set.count) _ _ t
        (λ e.
          precommit_quorum-at t set (quorum_entry t set) at
            (entry-IsJustified t VoteType.precommit set at (read set refl)))
        (λ e. at)

  -- What `votes_get` reads of the node's height is tallied after it.
  got-Read :
      (s : Bft) (round : ℕ) (kind : VoteType)
      → Justified s
      → s.round ≡ round
      → Read kind
          (votes_get s.height round kind s).1
          (Votes.get_voteset s.height round kind s.votes).0
  unfolding votes_get
  got-Read s round kind at same set found = rw same (at.0.0 round kind set found)

  pub prevotes-Justified : Keeps Justified check_prevote_count
  unfolding check_prevote_count votes_get ◌>>=◌
  prevotes-Justified = record {
    at = λ s at.
        let (flag, s') = count_rounds (false, s) s.votes.prevote_count in
        let moved = counted-move justified s s.votes.prevote_count at in
        if-at Justified flag _ _ s'
          (λ e.
            count_prevotes-at _ _
              ((justified.reads s'.height s'.round VoteType.prevote).at s' moved)
              (got-Read s' s'.round VoteType.prevote moved refl))
          (λ e. moved);
  }

  pub precommits-Justified : Keeps Justified check_precommit_count
  unfolding check_precommit_count votes_get ◌>>=◌
  precommits-Justified = record {
    at = λ s at.
        let (flag, s') = count_rounds (false, s) s.votes.precommit_count in
        let moved = counted-move justified s s.votes.precommit_count at in
        if-at Justified flag _ _ s'
          (λ e.
            count_precommits-at _ _
              ((justified.reads s'.height s'.round VoteType.precommit).at s' moved)
              (got-Read s' s'.round VoteType.precommit moved refl))
          (λ e. moved);
  }
