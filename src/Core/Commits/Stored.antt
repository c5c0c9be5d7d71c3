-- ===== src/Core/Commits/Stored.antt =====
-- `check_and_save_vote` of src/utils.rs keeps the votes of the node's height tallied.
use bft_rs.Prelude.{
  ℕ, ◌^◌, ◌<◌, ◌≡◌, ◌⊎◌, refl, ◌∙◌, Bool, true, Option, some, List, [], ◌∷◌, BftError, ok, arith,
  find, inl, inr, Bool-cases, Option-cases, list_beq, list_beq_iff, list_eq, ◌==◌,
}
use bft_rs.Objects.{Address, Node, SignedVote, Vote, VoteType}
use bft_rs.Env.{Env}
use bft_rs.Weight.Quorum.{total_of}
use bft_rs.Collect.VoteSet
use bft_rs.Collect.VoteSet.{VoteSet}
use bft_rs.Collect.Votes.{VoteCollector, add_vote, get_voteset}
use bft_rs.Collect.Votes.View.{or_new}
use bft_rs.Checks.{check_voter, vote_hash, is_authority}
use bft_rs.Checks.Save.{check_and_save_vote, store_vote}
use bft_rs.Machine.State.{Bft}
use bft_rs.Machine.Monad.{◌>>=◌, ◌>>◌, when, raise, handle_err}
use bft_rs.Machine.Monad.Reads.{
  bind-read, bind-get, when-lift_reads, when-lift_passes, when-raise_reads, when-raise_passes,
  need-reads, need-passes,
}
use bft_rs.Machine.Access.{get_vote_weight, authorities_for, votes_add, log}
use bft_rs.Core.Commits.Tally.{IsTallied, IsCast, HasDistinct, add-IsTallied, new-IsTallied}

module _ ⦃env : Env⦄ where
  open env use {check_sig}

  -- What `check_and_save_vote` or `check_vote` has checked when it stores a vote.
  pub record IsChecked (s : Bft) (sv : SignedVote) : Type 0 where
    pub signed : check_sig sv.signature (vote_hash sv.vote) ≡ some sv.vote.voter
    pub voter :
        sv.vote.height ≡ s.height
        → is_authority (authorities_for s sv.vote.height) sv.vote.voter ≡ true

  -- The votes after a call: as before, or with a checked vote.
  abbrev pub VotesAfter : Bft → SignedVote → VoteCollector → Type 0
  VotesAfter s sv c =
      (c ≡ s.votes)
      ⊎ (IsChecked s sv
          × (c ≡ (add_vote sv (get_vote_weight s sv.vote.height sv.vote.voter) s.height s.votes).1))

  check_voter-listed :
      (s : Bft) (vote : Vote)
      → check_voter s vote ≡ ok tt
      → is_authority (authorities_for s vote.height) vote.voter ≡ true
  unfolding check_voter
  check_voter-listed s vote h = ground arith

  store_vote-changes :
      (sv : SignedVote) (w : Bool) (s : Bft)
      → let s' = (store_vote sv w s).1 in
        (s'.height ≡ s.height)
        × (s'.authority_manage ≡ s.authority_manage)
        × (s'.votes
            ≡ (add_vote sv (get_vote_weight s sv.vote.height sv.vote.voter) s.height s.votes).1)
  unfolding store_vote votes_add log ◌>>=◌
  store_vote-changes sv w s = ground arith

  stored_last :
      (sv : SignedVote) (w b b' : Bool) (x : BftError) (s : Bft)
      → IsChecked s sv
      → let s' = ((when b (handle_err (store_vote sv w)) >> when b' (raise x)) s).1 in
        (s'.height ≡ s.height)
        × (s'.authority_manage ≡ s.authority_manage)
        × VotesAfter s sv s'.votes
  unfolding ◌>>=◌
  stored_last sv w b b' x s checked = let stored = store_vote-changes sv w s in ground arith

  pub save_vote-changes :
      (sv : SignedVote) (w : Bool) (s : Bft)
      → let s' = (check_and_save_vote sv w s).1 in
        (s'.height ≡ s.height)
        × (s'.authority_manage ≡ s.authority_manage)
        × VotesAfter s sv s'.votes
  unfolding check_and_save_vote
  save_vote-changes sv w s =
      let Q : Bft → Type 0 = λ t.
        (t.height ≡ s.height)
        × (t.authority_manage ≡ s.authority_manage)
        × VotesAfter s sv t.votes in
      let before : Q s = (refl, refl, inl refl) in
      bind-get Q _ s (
        bind-read Q _ _ s (when-raise_reads _ _ s) before λ u₁ e₁.
          bind-read Q _ _ s (need-reads _ _ s) before λ address e₂.
            bind-read Q _ _ s (when-raise_reads _ _ s) before λ u₂ e₃.
              bind-read Q _ _ s (when-lift_reads _ _ s) before λ u₃ e₄.
                stored_last sv w _ _ _ s (record {
                  signed =
                      let found = need-passes _ _ s address e₂ in
                      let same = when-raise_passes _ _ s u₂ e₃ in
                      found ∙ ground (arith, list_beq_iff sv.vote.voter address);
                  voter = λ at.
                      check_voter-listed s sv.vote
                        (when-lift_passes _ _ s u₃ e₄ (ground (arith, at)));
                }))

  find-listed :
      (ns : List Node) (a : Address)
      → is_authority ns a ≡ true
      → (node : Node) × (find (λ (n : Node). n.address == a) ns ≡ some node)
  find-listed [] a h = cc
  find-listed (n ∷ ns) a h = elim (Bool-cases (list_beq n.address a)) [
    | inl here ↦ (n, rw here refl)
    | inr there ↦ let (node, found) = find-listed ns a (rw there at h) in (node, rw there found)
  ]

  -- Every set of votes of the node's height is tallied under its authorities.
  abbrev pub AllTallied : Bft → Type 0
  AllTallied s =
      (round : ℕ) (kind : VoteType) (set : VoteSet)
      → (get_voteset s.height round kind s.votes).0 ≡ some set
      → IsTallied s.authority_manage.authorities s.height round kind set

  -- The authorities of the node's height are the present ones, have different addresses and are of
  -- less than 2 ^ 64 in weight.
  pub record HasAuthorities (s : Bft) : Type 0 where
    pub present : authorities_for s s.height ≡ s.authority_manage.authorities
    pub distinct : HasDistinct s.authority_manage.authorities
    pub fits : total_of s.authority_manage.authorities < 2 ^ 64

  -- A checked vote of the node's height is cast by an authority, and is added with its weight.
  pub added-IsTallied :
      (s : Bft) (sv : SignedVote) (before : Option VoteSet)
      → HasAuthorities s
      → IsChecked s sv
      → sv.vote.height ≡ s.height
      → ((set : VoteSet)
          → before ≡ some set
          → IsTallied s.authority_manage.authorities s.height sv.vote.round sv.vote.vote_type set)
      → IsTallied s.authority_manage.authorities s.height sv.vote.round sv.vote.vote_type
          (VoteSet.add sv (get_vote_weight s sv.vote.height sv.vote.voter) (or_new before)).1
  unfolding get_vote_weight
  added-IsTallied s sv before ready checked same tallied =
      let ns = s.authority_manage.authorities in
      let listed : is_authority ns sv.vote.voter ≡ true =
        rw (same, ready.present) at (checked.voter same) in
      let (node, found) = find-listed ns sv.vote.voter listed in
      let weight : get_vote_weight s sv.vote.height sv.vote.voter ≡ node.vote_weight =
        ground (arith, found) in
      let cast : IsCast ns s.height sv.vote.round sv.vote.vote_type sv = record {
        listed = listed;
        of_kind = refl;
        of_height = same;
        of_round = refl;
        signed = checked.signed;
      } in
      let old : IsTallied ns s.height sv.vote.round sv.vote.vote_type (or_new before) =
        elim (Option-cases before) [
          | inl e ↦ rw e (new-IsTallied ns s.height sv.vote.round sv.vote.vote_type)
          | inr (set, e) ↦ rw e (tallied set e)
        ] in
      rw weight (
        add-IsTallied ns s.height sv.vote.round sv.vote.vote_type sv node (or_new before)
          ready.distinct ready.fits cast found old)
