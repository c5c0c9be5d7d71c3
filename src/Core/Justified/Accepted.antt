-- ===== src/Core/Justified/Accepted.antt =====
-- What `check_and_save_proposal` of src/utils.rs and `handle_proposal` of src/algorithm.rs let pass.
use bft_rs.Prelude.{
  ◌≡◌, refl, BftResult, BftError, ◌⊎◌, inl, inr, Bool, true, false, ◌||◌, ok, arith, ltb, ◌==◌,
  nat_eq, nat_beq_iff, Bool-cases, sub64,
}
use bft_rs.Objects.{Bytes, Block, Proposal, SignedProposal}
use bft_rs.Env.{Env}
use bft_rs.Checks.Votes.{check_lock_votes}
use bft_rs.Checks.Save.{check_current, check_and_save_proposal}
use bft_rs.Machine.State.{Bft}
use bft_rs.Machine.Monad.{pure, raise, lift, ◌>>=◌}
use bft_rs.Machine.Monad.Reads.{
  bind-ok, bind-read_ok, get-ok, when-raise_reads, when-raise_passes, need-reads,
}
use bft_rs.Core.Handlers.{handle_proposal}

module _ ⦃env : Env⦄ where
  lift_reads : {A : Type 0} (r : BftResult A) (s : Bft) → (lift r s).1 ≡ s
  unfolding ◌>>=◌
  lift_reads r s = refl

  pure-ok : {A : Type 0} (a b : A) (s : Bft) → (pure a s).0 ≡ ok b → a ≡ b
  unfolding ◌>>=◌
  pure-ok a b s h = ground (arith, h)

  raise-fails : {A : Type 0} (x : BftError) (a : A) (s : Bft) → (raise x s).0 ≡ ok a → ⊥
  unfolding ◌>>=◌
  raise-fails x a s h = ground (arith, h)

  -- A proposal that the first checks let pass has lock votes that `check_lock_votes` accepts; they
  -- end the call only for the height below.
  check_current-ok :
      (s : Bft) (sp : SignedProposal) (block : Block) (encode : Bytes) (r : Bool)
      → (check_current sp block encode s).0 ≡ ok r
      → ((check_lock_votes sp.proposal sp.proposal.block_hash s).0 ≡ ok tt)
        × (r ≡ true → (sp.proposal.height == sub64 s.height 1) ≡ true)
  unfolding check_current
  check_current-ok s sp block encode r h =
      let (_, _, h₁) = bind-read_ok _ _ s r (lift_reads _ s) (get-ok _ s r h) in
      let (u, votes, h₂) = bind-ok _ _ s r h₁ in
      (
        votes,
        elim (Bool-cases (sp.proposal.height == sub64 s.height 1)) [
          | inl lower ↦ λ ends. lower
          | inr here ↦ λ ends.
              let (_, _, h₃) = bind-ok _ _ _ r (rw here at h₂) in
              let (_, _, h₄) = bind-ok _ _ _ r h₃ in absurd (ground (arith, pure-ok false r _ h₄))
        ],
      )

  pub save_proposal-ok :
      (s : Bft) (sp : SignedProposal) (block : Block) (encode : Bytes) (need_wal : Bool)
      → (check_and_save_proposal sp block encode need_wal s).0 ≡ ok tt
      → let p = sp.proposal in
        (((p.height == sub64 s.height 1) ≡ true)
          ⊎ ((ltb p.height (sub64 s.height 1) ≡ false) × (ltb s.height p.height ≡ false)))
        × (p.height ≡ s.height → (check_lock_votes p p.block_hash s).0 ≡ ok tt)
  unfolding check_and_save_proposal
  save_proposal-ok s sp block encode need_wal h =
      let (u₁, e₁, h₁) = bind-read_ok _ _ s tt (when-raise_reads _ _ s) (get-ok _ s tt h) in
      let (u₂, e₂, h₂) = bind-read_ok _ _ s tt (need-reads _ _ s) h₁ in
      let (u₃, e₃, h₃) = bind-read_ok _ _ s tt (when-raise_reads _ _ s) h₂ in
      let (returned, h₄, h₅) = bind-ok _ _ s tt h₃ in
      let checked : Bool =
        (sp.proposal.height == s.height) || (sp.proposal.height == sub64 s.height 1) in
      let votes : checked ≡ true
          → ((check_lock_votes sp.proposal sp.proposal.block_hash s).0 ≡ ok tt)
            × (returned ≡ true → (sp.proposal.height == sub64 s.height 1) ≡ true) =
        λ c. check_current-ok s sp block encode returned (rw c at h₄) in
      let here : sp.proposal.height ≡ s.height → checked ≡ true =
        λ same. ground (arith, nat_beq_iff sp.proposal.height s.height) in
      elim (Bool-cases returned) [
        | inl ends ↦ elim (Bool-cases checked) [
          | inl c ↦ (inl ((votes c).1 ends), λ same. (votes c).0)
          | inr c ↦ absurd (ground (arith, pure-ok false returned s (rw c at h₄)))
        ]
        | inr goes ↦
            let (_, _, h₆) = bind-ok _ _ _ tt (rw goes at h₅) in
            let kept = when-raise_passes _ _ _ tt h₆ in
            let low = when-raise_passes _ _ s u₁ e₁ in
            (inr (low, ground arith), λ same. (votes (here same)).0)
      ]

  pub handle_proposal-ok :
      (p : Proposal) (s : Bft)
      → (handle_proposal p s).0 ≡ ok tt
      → (p.height == sub64 s.height 1) ≡ false
  unfolding handle_proposal
  handle_proposal-ok p s h = elim (Bool-cases (p.height == sub64 s.height 1)) [
    | inl lower ↦
        let (_, _, h₁) = bind-ok _ _ s tt (rw lower at (get-ok _ s tt h)) in
        absurd (raise-fails _ tt _ h₁)
    | inr other ↦ other
  ]
