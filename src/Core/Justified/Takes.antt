-- ===== src/Core/Justified/Takes.antt =====
-- The lock that a node takes from a proposal, in `set_proposal` of src/algorithm.rs, is justified.
use bft_rs.Prelude.{
  ℕ, ◌^◌, ◌<◌, ◌≡◌, refl, ◌∙◌, ◌⊎◌, inl, inr, true, false, Option, none, some, arith, ltb, ◌==◌,
  nat_eq, Bool-cases, sub64, is_none, ◌&&◌,
}
use bft_rs.Objects.{AuthorityManage, Step, LockStatus, Proposal}
use bft_rs.Env.{Env, LruLaws}
use bft_rs.Machine.State.{Bft}
use bft_rs.Machine.Monad.{when, ◌>>=◌, ◌>>◌, get}
use bft_rs.Machine.Monad.Keeps.{Keeps, keeps_rules, Keeps-bind, Keeps-modify}
use bft_rs.Machine.Monad.Reads.{bind-gives}
use bft_rs.Core.Rounds.{set_proposal, with_lock_round, lock_allows}
use bft_rs.Objects.Kinds.{step_eq}
use bft_rs.Core.Transmit.{transmit_prevote}
use bft_rs.Core.Handlers.{handle_proposal}
use bft_rs.Core.Process.{on_proposal}
use bft_rs.Core.Height.{Frame}
use bft_rs.Core.Height.Sends.{transmit_prevote-Keeps}
use bft_rs.Core.Height.Handlers.{handle_proposal-Keeps, handle_commit-Keeps}
use bft_rs.Core.Justified.{IsJustified}
use bft_rs.Core.Justified.Frames.{Frame-both, Pinned, pinned}
use bft_rs.Core.Justified.Counts.{Justified, justified, relocked}
use bft_rs.Core.Justified.Accepted.{handle_proposal-ok}

module _ ⦃env : Env⦄ (laws : LruLaws env) (height : ℕ) (manage : AuthorityManage) where
  abbrev pub At : Bft → Type 0
  At s = Justified laws s × Pinned height manage s

  pub at_frame : Frame At
  at_frame = Frame-both (justified laws) (pinned height manage)

  -- The lock that a proposal offers.
  abbrev pub offer : Proposal → ℕ → LockStatus
  offer p lock_round = record {
    block_hash = p.block_hash;
    round = lock_round;
    votes = p.lock_votes;
  }

  module _ (p : Proposal)
      (just : (lock_round : ℕ)
        → p.lock_round ≡ some lock_round
        → IsJustified manage.authorities height (offer p lock_round)) where
    adopted :
        (lock_round : ℕ) (s s' : Bft)
        → p.lock_round ≡ some lock_round
        → s'.height ≡ s.height
        → s'.authority_manage ≡ s.authority_manage
        → s'.votes ≡ s.votes
        → s'.lock_status ≡ some (offer p lock_round)
        → At s
        → At s'
    adopted lock_round s s' e h m v l (at, (is_height, is_manage)) = (
      relocked laws s s' h m v
          (λ lock locked.
            let same : offer p lock_round ≡ lock = ground (arith, l, locked) in
            rw (← same, h ∙ is_height, m ∙ is_manage) (just lock_round e))
          at,
      (h ∙ is_height, m ∙ is_manage),
    )

    with_lock_round-At :
        (o : Option ℕ) (s : Bft) → p.lock_round ≡ o → At s → At (with_lock_round p o s)
    with_lock_round-At (some lock_round) s e at =
        elim (Bool-cases (lock_allows s.lock_status lock_round)) [
          | inl yes_lock ↦
              rw yes_lock
                (adopted lock_round s _ e (ground arith) (ground arith) (ground arith) refl at)
          | inr no_lock ↦ rw no_lock at
        ]
    with_lock_round-At none s e at =
        elim (Bool-cases (is_none s.lock_status && (p.round == s.round))) [
          | inl first ↦ rw first (at_frame.unlocks s _ refl refl refl refl (ground arith) at)
          | inr other ↦ rw other at
        ]

    set_proposal-At : Keeps At (set_proposal p)
    unfolding set_proposal
    set_proposal-At = Keeps-modify _ λ s at. with_lock_round-At p.lock_round s refl at

  -- A proposal that has passed the checks at this height.
  pub record IsAccepted (p : Proposal) : Type 0 where
    pub range :
        ((p.height == sub64 height 1) ≡ true)
        ⊎ ((ltb p.height (sub64 height 1) ≡ false) × (ltb height p.height ≡ false))
    pub just :
        p.height ≡ height
        → (lock_round : ℕ) → p.lock_round ≡ some lock_round
        → IsJustified manage.authorities height (offer p lock_round)

  module _ (fits : height < 2 ^ 64) (p : Proposal) (accepted : IsAccepted p) where
    -- Past `handle_proposal` the proposal is for this height.
    for_height : (p.height == sub64 height 1) ≡ false → p.height ≡ height
    for_height other = elim accepted.range [
      | inl lower ↦ absurd (ground (arith, lower))
      | inr (low, high) ↦ ground arith
    ]

    handled : Keeps At (
        handle_proposal p
        >> (set_proposal p
            >> (get >>= λ s. when (s.step == Step.propose_wait) (transmit_prevote false))))
    handled = record {
      at = λ s at. bind-gives _ _ s ((handle_proposal-Keeps at_frame p).at s at) λ u passed.
          let here = for_height (rw at.1.0 at (handle_proposal-ok p s passed)) in
          Keeps-bind _ _ (set_proposal-At p (accepted.just here))
            (λ _. search (keeps_rules, at_frame, transmit_prevote-Keeps) depth 12);
    }

    pub on_proposal-At : Keeps At (on_proposal p)
    unfolding on_proposal
    on_proposal-At =
        let handles : (u : Unit {0})
            → Keeps At (
                handle_proposal p
                >> (set_proposal p
                    >> (get >>= λ s.
                        when (s.step == Step.propose_wait) (transmit_prevote false)))) =
          λ u. handled in
        search (keeps_rules, handles, at_frame, handle_commit-Keeps) depth 12
