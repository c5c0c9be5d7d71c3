-- ===== src/Core/Commits/Fork.antt =====
-- Two nodes that commit at one height: `check_precommit_count` of src/algorithm.rs and
-- `check_proof` of src/lib.rs.
use bft_rs.Prelude.{
  ℕ, ◌*◌, ◌^◌, ◌<◌, ◌≡◌, refl, ◌⊎◌, sym, ◌∙◌, Bool, true, Option, some, List, All, ok, arith, inl,
  inr, Bool-cases, list_beq, list_beq_iff, add64,
}
use bft_rs.Objects.{
  Address, Block, Hash, LockStatus, Node, PrecommitRes, Proof, Signature, VerifyResp, VoteType,
}
use bft_rs.Env.{Env, LruLaws}
use bft_rs.Weight.{get_total_weight, get_votes_weight}
use bft_rs.Weight.Quorum.{common, total_of}
use bft_rs.Codec.{vote_item}
use bft_rs.Checks.{check_proof, voters}
use bft_rs.Checks.Sound.{check_proof-IsJustified}
use bft_rs.Checks.Sound.Forks.{DoubleSigned, check_proof_fork}
use bft_rs.Machine.State.{Bft}
use bft_rs.Machine.Access.{generate_proof}
use bft_rs.Core.Counting.{check_precommit_count}
use bft_rs.Core.Height.Events.{stays, Stays-Locks}
use bft_rs.Core.Height.Handlers.{check_precommit_count-Keeps}
use bft_rs.Core.Commits.Invariant.{TalliedUnder}
use bft_rs.Core.Commits.{check_precommit_count-accepted}

-- What one node calls and another need not: its signing key, its checks of a block and its random
-- bytes.
pub record Own : Type 0 where
  pub sign : Hash → Option Signature
  pub check_block : Block → Hash → Hash → ℕ × ℕ → Bool → Address → Option VerifyResp
  pub rand_vec : ℕ → ℕ → List ℕ

-- Another node of the same build: the same crates, hash and test of signatures.
abbrev pub peer : Env → Own → Env
peer env own = record env {
  sign = own.sign;
  check_block = own.check_block;
  rand_vec = own.rand_vec;
}

module _ (env : Env) (own : Own) where
  -- A proof that the one accepts is accepted by the other.
  peer-check_proof :
      (p : Proof) (height : ℕ) (ns : List Node)
      → 0 < p.height
      → check_proof ⦃env = peer env own⦄ p height ns ≡ true
      → check_proof ⦃env = env⦄ p height ns ≡ true
  unfolding vote_item
  peer-check_proof p height ns pos h =
      let j = (check_proof-IsJustified ⦃env = peer env own⦄ p height ns pos).0 h in
      (check_proof-IsJustified ⦃env = env⦄ p height ns pos).1
        (record { next = j.next; weighty = j.weighty; signed = j.signed })

module _ ⦃env : Env⦄ where
  -- Two proofs for one block, or voters in both, with more than a third of the weight, each of which
  -- is an authority that signed two different precommits of the height.
  abbrev pub AgreeOrFork : List Node → Proof → Proof → Type 0
  AgreeOrFork ns p q =
      (p.block_hash ≡ q.block_hash)
      ⊎ ((get_total_weight ns
            < get_votes_weight ns (common (voters p.precommit_votes) (voters q.precommit_votes))
              * 3)
          × All (DoubleSigned ns p q)
              (common (voters p.precommit_votes) (voters q.precommit_votes)))

  accepted-AgreeOrFork :
      (p q : Proof) (height : ℕ) (ns : List Node)
      → total_of ns < 2 ^ 62
      → 0 < p.height
      → p.height ≡ q.height
      → check_proof p height ns ≡ true
      → check_proof q height ns ≡ true
      → AgreeOrFork ns p q
  accepted-AgreeOrFork p q height ns small pos same hp hq =
      elim (Bool-cases (list_beq p.block_hash q.block_hash)) [
        | inl e ↦ inl ((list_beq_iff p.block_hash q.block_hash).0 e)
        | inr e ↦ inr (
            check_proof_fork p q height ns small pos same
              (λ h. ground (arith, e, (list_beq_iff p.block_hash q.block_hash).1 h)) hp hq)
      ]

  -- What a node at a given height with given authorities makes of its lock, when the count of the
  -- precommits ends in a proposal.
  record Committed (t : Bft) (height : ℕ) (ns : List Node) : Type 0 where
    lock : LockStatus
    locked : (check_precommit_count t).1.lock_status ≡ some lock
    at_height : (check_precommit_count t).1.height ≡ height
    accepted :
        check_proof (generate_proof (check_precommit_count t).1 lock) (add64 height 1) ns ≡ true

module _ ⦃env : Env⦄ (laws : LruLaws env) where
  counted-Committed :
      (t : Bft)
      → 0 < t.height
      → TalliedUnder laws t
      → (check_precommit_count t).0 ≡ ok PrecommitRes.proposal
      → Committed t t.height t.authority_manage.authorities
  counted-Committed t pos (tallied, ready, room) h =
      let (lock, locked, accepted) =
        check_precommit_count-accepted t pos ready.fits
          (λ round set found. tallied round VoteType.precommit set found) h in
      let same = (check_precommit_count-Keeps (stays t.height) (Stays-Locks t.height)).at t refl in
      record { lock = lock; locked = locked; at_height = same; accepted = rw same at accepted }

module _ (env : Env) (own : Own) (laws : LruLaws env) (peer_laws : LruLaws (peer env own)) where
  -- If for two nodes at one height above 0, under the same authorities, the count of the precommits
  -- ends in a proposal to commit, then each is locked, and the proofs that they make of their locks
  -- agree or show a fork, where the sets of votes are tallied.
  pub counted-AgreeOrFork :
      (t : Bft ⦃env = env⦄) (t' : Bft ⦃env = peer env own⦄)
      → 0 < t.height
      → t.height ≡ t'.height
      → t.authority_manage.authorities ≡ t'.authority_manage.authorities
      → total_of t.authority_manage.authorities < 2 ^ 62
      → TalliedUnder ⦃env = env⦄ laws t
      → TalliedUnder ⦃env = peer env own⦄ peer_laws t'
      → (check_precommit_count ⦃env = env⦄ t).0 ≡ ok PrecommitRes.proposal
      → (check_precommit_count ⦃env = peer env own⦄ t').0 ≡ ok PrecommitRes.proposal
      → let u = (check_precommit_count ⦃env = env⦄ t).1 in
        let u' = (check_precommit_count ⦃env = peer env own⦄ t').1 in
        (lock : LockStatus) × (lock' : LockStatus) × (u.lock_status ≡ some lock)
        × (u'.lock_status ≡ some lock')
        × AgreeOrFork ⦃env = env⦄ t.authority_manage.authorities
            (generate_proof ⦃env = env⦄ u lock)
            (generate_proof ⦃env = peer env own⦄ u' lock')
  unfolding generate_proof
  counted-AgreeOrFork t t' pos same_height same_list small at at' h h' =
      let ns = t.authority_manage.authorities in
      let c = counted-Committed ⦃env = env⦄ laws t pos at h in
      let c' =
        counted-Committed ⦃env = peer env own⦄ peer_laws t' (rw (← same_height) pos) at' h' in
      let u = (check_precommit_count ⦃env = env⦄ t).1 in
      let u' = (check_precommit_count ⦃env = peer env own⦄ t').1 in
      let q : Proof = generate_proof ⦃env = peer env own⦄ u' c'.lock in
      let pos' : 0 < q.height = rw (c'.at_height, ← same_height) pos in
      let ok' : check_proof ⦃env = peer env own⦄ q (add64 t.height 1) ns ≡ true =
        rw (same_height, same_list) c'.accepted in
      (
        c.lock,
        c'.lock,
        c.locked,
        c'.locked,
        accepted-AgreeOrFork ⦃env = env⦄ (generate_proof ⦃env = env⦄ u c.lock) q (add64 t.height 1)
            ns small (rw c.at_height pos) (c.at_height ∙ same_height ∙ sym c'.at_height) c.accepted
            (peer-check_proof env own q (add64 t.height 1) ns pos' ok'),
      )
