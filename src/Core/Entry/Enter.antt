-- ===== src/Core/Entry/Enter.antt =====
-- `handle_status` and the timeout of CommitWait of src/algorithm.rs: what holds at the height that
-- they lead to.
use bft_rs.Prelude.{ℕ, ◌^◌, ◌<◌, ◌≡◌, ◌≢◌, refl, ap, ◌∙◌, none, true, arith}
use bft_rs.Objects.{AuthorityManage, Status}
use bft_rs.Objects.Authority.{sort_nodes}
use bft_rs.Objects.Kinds.{step_eq}
use bft_rs.Env.{Env, LruLaws}
use bft_rs.Weight.Quorum.{total_of}
use bft_rs.Collect.Votes.{clear_vote_count}
use bft_rs.Collect.Votes.View.{HasRoom}
use bft_rs.Machine.State.{Bft}
use bft_rs.Machine.Monad.{◌>>=◌, ◌>>◌, handle_err}
use bft_rs.Machine.Monad.Reads.{bind-at}
use bft_rs.Machine.Access.{set_status, clean_save_info, clean_filter}
use bft_rs.Core.Rounds.{goto_new_height, flush_cache}
use bft_rs.Core.Handlers.{enter_height}
use bft_rs.Core.Transmit.{new_round_start}
use bft_rs.Core.Height.Checks.{flush_cache-Keeps}
use bft_rs.Core.Height.Sends.{new_round_start-Keeps}
use bft_rs.Core.Commits.Tally.{HasDistinct}
use bft_rs.Core.Commits.Stored.{HasAuthorities}
use bft_rs.Core.Justified.Frames.{
  Frame-both, Pinned, pinned, IsUnlocked, IsUnlocked-Free, IsUnlocked-Frame,
}
use bft_rs.Core.Justified.Counts.{Justified, justified}
use bft_rs.Core.Entry.Authorities.{receive-sorted, receive-not_old, sort-total, sort-HasDistinct}
use bft_rs.Core.Entry.Flush.{HasBlock, flush_cache-Justified}

module _ ⦃env : Env⦄ where
  -- What a status and a node have to have when the node enters a height with it: authorities with
  -- different addresses and less than 2 ^ 64 in weight, a height above 0 that is neither the status'
  -- nor that of the old authorities, and the block of a cached proposal of the round 0.
  pub record Enters (s : Bft) (status : Status) (height : ℕ) : Type 0 where
    pub distinct : HasDistinct status.authority_list
    pub fits : total_of status.authority_list < 2 ^ 64
    pub pos : 0 < height
    pub later : status.height ≢ height
    pub not_old : s.authority_manage.authority_h_old ≢ height
    pub block : HasBlock height 0 s

  abbrev entered : (s : Bft) (status : Status) (height : ℕ) → Bft
  entered s status height = ((set_status status >> goto_new_height height) s).1

  entered-HasAuthorities :
      (s : Bft) (status : Status) (height : ℕ)
      → Enters s status height
      → HasAuthorities (entered s status height)
  unfolding set_status goto_new_height clean_save_info clean_filter ◌>>=◌
  entered-HasAuthorities s status height enters =
      let sorted = receive-sorted s.authority_manage status.height status.authority_list in
      let not_old =
        receive-not_old s.authority_manage status.height status.authority_list height enters.later
          enters.not_old in
      record {
        present = ground (arith, not_old);
        distinct = rw sorted (sort-HasDistinct status.authority_list enters.distinct);
        fits = rw (sorted, sort-total status.authority_list) enters.fits;
      }

module _ ⦃env : Env⦄ (laws : LruLaws env) where
  -- The state of a node that has entered a height with a status: it is at that height, under the
  -- status' authorities, sorted, and not locked; every set of votes of the height is tallied, the
  -- authorities are the present ones, have different addresses and less than 2 ^ 64 in weight, and the
  -- caches have room.
  pub record IsEntered (status : Status) (height : ℕ) (s : Bft) : Type 0 where
    pub at_height : s.height ≡ height
    pub authorities : s.authority_manage.authorities ≡ sort_nodes status.authority_list
    pub free : s.lock_status ≡ none
    pub justified : Justified laws s

  pub enter_height-IsEntered :
      (s : Bft) (status : Status) (height : ℕ)
      → HasRoom laws s.votes
      → Enters s status height
      → IsEntered status height (enter_height status height s).1
  unfolding set_status goto_new_height clean_save_info clean_filter clear_vote_count ◌>>=◌
  enter_height-IsEntered s status height ready enters =
      let t = entered s status height in
      let manage = t.authority_manage in
      let frame =
        Frame-both (Frame-both (justified laws) (pinned height manage)) IsUnlocked-Frame in
      let room : HasRoom laws t.votes = record { heights = ready.heights; rounds = ready.rounds } in
      let flushed =
        flush_cache-Justified laws t (entered-HasAuthorities s status height enters) room refl
          enters.block in
      let free = (flush_cache-Keeps IsUnlocked-Frame IsUnlocked-Free).at t refl in
      let after =
        bind-at {P = λ u. (Justified laws u × Pinned height manage u) × IsUnlocked u}
          (handle_err flush_cache) (λ _. new_round_start true) t (flushed, free)
          (λ _. new_round_start-Keeps frame true) in
      record {
        at_height = after.0.1.0;
        authorities =
            ap (λ (m : AuthorityManage). m.authorities) after.0.1.1
            ∙ receive-sorted s.authority_manage status.height status.authority_list;
        free = after.1;
        justified = after.0.0;
      }
