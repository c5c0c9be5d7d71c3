-- ===== src/Core/Entry/Flush.antt =====
-- `flush_cache` of src/utils.rs: no vote of the new height stays in the vote sets that are counted.
use bft_rs.Prelude.{
  ℕ, ◌≡◌, refl, ◌∙◌, true, Option, none, some, ok, arith, nat_beq, Option-cases, inl, inr, is_some,
  Bool-cases,
}
use bft_rs.Objects.{SignedProposal, VoteType}
use bft_rs.Env.{Env, LruLaws, lru_peek}
use bft_rs.Collect.Votes.{VoteCollector, remove_height, get_voteset}
use bft_rs.Collect.Votes.View.{get_voteset-view, HasRoom}
use bft_rs.Collect.Proposals
use bft_rs.Collect.Blocks
use bft_rs.Machine.State.{Bft}
use bft_rs.Machine.Monad.{◌>>=◌}
use bft_rs.Machine.Access.{proposals_get, proposals_remove, blocks_get, send_bft_msg}
use bft_rs.Core.Rounds.{fetch_proposal, fetch_votes, flush_cache, taken}
use bft_rs.Core.Height.Checks.{send_rounds-Keeps}
use bft_rs.Core.Commits.Stored.{HasAuthorities}
use bft_rs.Core.Justified.Frames.{unlocked, Frame-both, Pinned, pinned}
use bft_rs.Core.Justified.Counts.{Justified, justified}

module _ ⦃env : Env⦄ where
  open env use {LruCache, lru_get_mut}

  -- The block of the cached proposal of a height and a round, if there is one, is cached.
  abbrev pub HasBlock : ℕ → ℕ → Bft → Type 0
  HasBlock height round s =
      (sp : SignedProposal)
      → (Proposals.get_proposal height round s.proposals).0 ≡ some sp
      → is_some (Blocks.get_block height sp.proposal.block_hash s.blocks).0 ≡ true

  -- What `fetch_proposal` leaves alone, and when it succeeds.
  record Untouched (s t : Bft) : Type 0 where
    height : t.height ≡ s.height
    manage : t.authority_manage ≡ s.authority_manage
    votes : t.votes ≡ s.votes
    lock : t.lock_status ≡ s.lock_status

  taken-fetches :
      (h r : ℕ) (found : Option SignedProposal) (s : Bft)
      → ((sp : SignedProposal)
          → found ≡ some sp
          → is_some (Blocks.get_block h sp.proposal.block_hash s.blocks).0 ≡ true)
      → ((taken h r found s).0 ≡ ok tt) × Untouched s (taken h r found s).1
  unfolding proposals_remove blocks_get send_bft_msg ◌>>=◌
  taken-fetches h r none s stored =
      (refl, record { height = refl; manage = refl; votes = refl; lock = refl })
  taken-fetches h r (some sp) s stored =
      elim (Option-cases (Blocks.get_block h sp.proposal.block_hash s.blocks).0) [
        | inl e ↦ absurd (ground (arith, stored sp refl, e))
        | inr (b, e) ↦
            rw e (refl, record { height = refl; manage = refl; votes = refl; lock = refl })
      ]

  fetch_proposal-fetches :
      (h r : ℕ) (s : Bft)
      → HasBlock h r s
      → ((fetch_proposal h r s).0 ≡ ok tt) × Untouched s (fetch_proposal h r s).1
  unfolding fetch_proposal proposals_get ◌>>=◌
  fetch_proposal-fetches h r s stored =
      let (found, c) = Proposals.get_proposal h r s.proposals in
      let (passed, same) =
        taken-fetches h r found (record s { proposals = c }) (λ sp e. stored sp e) in
      (
        passed,
        record { height = same.height; manage = same.manage; votes = same.votes; lock = same.lock },
      )

module _ ⦃env : Env⦄ (laws : LruLaws env) where
  open env use {LruCache, lru_get_mut}

  remove_height-view :
      (height round : ℕ) (t : VoteType) (c : VoteCollector)
      → (get_voteset height round t (remove_height height c)).0 ≡ none
  unfolding remove_height
  remove_height-view height round t c =
      let same : nat_beq height height ≡ true = ground arith in
      let gone : lru_peek height (remove_height height c).votes ≡ none =
        laws.peek_remove height height c.votes ∙ rw same refl in
      get_voteset-view height round t (remove_height height c) ∙ rw gone refl

  remove_height-HasRoom :
      (height : ℕ) (c : VoteCollector) → HasRoom laws c → HasRoom laws (remove_height height c)
  unfolding remove_height
  remove_height-HasRoom height c room = record {
    heights = rw (laws.capacity_remove height c.votes) room.heights;
    rounds = λ h rc found. elim (Bool-cases (nat_beq height h)) [
      | inl here ↦ absurd (ground (arith, rw (laws.peek_remove height h c.votes, here) at found))
      | inr there ↦ room.rounds h rc (rw (laws.peek_remove height h c.votes, there) at found)
    ];
  }

  -- After `fetch_votes` no set of votes of the height is left, so that every one is tallied.
  fetch_votes-Justified :
      (s : Bft)
      → HasAuthorities s
      → HasRoom laws s.votes
      → s.lock_status ≡ none
      → let s' = (fetch_votes s.height s).1 in
        Justified laws s' × Pinned s.height s.authority_manage s'
  unfolding fetch_votes ◌>>=◌
  fetch_votes-Justified s ready room free =
      elim (Option-cases (lru_get_mut s.height s.votes.votes)) [
        | inl e ↦
            let empty : (round : ℕ) (t : VoteType)
                → (get_voteset s.height round t s.votes).0 ≡ none =
              λ round t. get_voteset-view s.height round t s.votes ∙ rw e refl in
            rw e (
              (
                (
                  (λ round kind set found. absurd (ground (arith, empty round kind, found))),
                  ready,
                  room,
                ),
                unlocked s free,
              ),
              (refl, refl),
            )
        | inr (r, e) ↦
            let s' : Bft = record s { votes = remove_height s.height s.votes } in
            let removed : Justified laws s' = (
              (
                (λ round kind set found.
                    absurd (ground (arith, remove_height-view s.height round kind s.votes, found))),
                record { present = ready.present; distinct = ready.distinct; fits = ready.fits },
                remove_height-HasRoom s.height s.votes room,
              ),
              unlocked s' free,
            ) in
            let frame = Frame-both (justified laws) (pinned s.height s.authority_manage) in
            rw e (
              (send_rounds-Keeps frame (env.lru_values r.0.round_votes)).at s'
                (removed, (refl, refl)))
      ]

  -- Where `flush_cache` finds the block of the cached proposal, every set of votes of the height is
  -- tallied after it, and the height and the authorities are as before.
  pub flush_cache-Justified :
      (s : Bft)
      → HasAuthorities s
      → HasRoom laws s.votes
      → s.lock_status ≡ none
      → HasBlock s.height 0 s
      → let s' = (flush_cache s).1 in Justified laws s' × Pinned s.height s.authority_manage s'
  unfolding flush_cache ◌>>=◌
  flush_cache-Justified s ready room free stored =
      let (passed, same) = fetch_proposal-fetches s.height 0 s stored in
      let t = (fetch_proposal s.height 0 s).1 in
      let ready' : HasAuthorities t = record {
        present = rw (same.height, same.manage) ready.present;
        distinct = rw same.manage ready.distinct;
        fits = rw same.manage ready.fits;
      } in
      let room' : HasRoom laws t.votes = rw same.votes room in
      let after = fetch_votes-Justified t ready' room' (same.lock ∙ free) in
      rw passed (rw (same.height, same.manage) at after)
