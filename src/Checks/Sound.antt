-- ===== src/Checks/Sound.antt =====
-- What the two checks of a proof accept.
pub mod Forks
pub mod Order
use bft_rs.Prelude.{
  ℕ, ◌+◌, ◌*◌, ◌^◌, ◌<◌, ◌≡◌, ◌≢◌, ◌↔◌, ◌⊎◌, inl, inr, refl, Bool, true, false, ◌&&◌, Option, none,
  some, List, [], ◌∷◌, map, BftResult, ok, err, panic, HashMap, All, any, all, arith, add64,
  list_beq_iff, list_beq, Bool-cases, Option-cases, mul64, nat_beq_iff, filterb, ◌==◌, list_eq,
  lookup,
}
use bft_rs.Objects.{Address, Hash, Signature, Node, Proof}
use bft_rs.Env.{Env}
use bft_rs.Weight.{contains, get_total_weight, get_votes_weight}
use bft_rs.Weight.Quorum.{HasQuorum, total_of, common, quorum_intersection}
use bft_rs.Checks.{
  check_proof, check_proof_only, check_entries, check_entry, vote_passes, vote_hash, precommit_of,
  is_authority, voters, below_quorum,
}

-- `is_ok()`
abbrev pub is_ok {ℓ} : {A : Type ℓ} → BftResult A → Bool
is_ok (ok a) = true
is_ok (err e) = false
is_ok panic = false

contains-addresses :
    (ns : List Node) (a : Address)
    → contains (map (λ (n : Node). n.address) ns) a ≡ is_authority ns a
contains-addresses [] a = refl
contains-addresses (n ∷ ns) a = ground (arith, contains-addresses ns a)

module _ ⦃env : Env⦄ where
  open env use {check_sig}

  check_entries-all :
      (ns : List Node) (p : Proof) (es : HashMap Address Signature)
      → all (vote_passes ns p) es ≡ is_ok (check_entries ns p es)
  check_entries-all ns p [] = refl
  check_entries-all ns p ((voter, sig) ∷ es) =
      ground (arith, check_entries-all ns p es, contains-addresses ns voter)

  -- The public `check_proof` accepts a proof exactly when `Bft::check_proof_only` does.
  pub check_proof-check_proof_only :
      (p : Proof) (height : ℕ) (ns : List Node)
      → check_proof p height ns ≡ is_ok (check_proof_only p height ns)
  unfolding check_proof check_proof_only
  check_proof-check_proof_only p height ns =
      ground (arith, check_entries-all ns p p.precommit_votes)

  -- A voter is an authority, and the signature is the voter's on the precommit of the proof.
  abbrev pub Signed : List Node → Proof → Address × Signature → Type 0
  Signed ns p (voter, sig) =
      (is_authority ns voter ≡ true)
      × (check_sig sig (vote_hash (precommit_of p voter)) ≡ some voter)

  -- What a proof of a height above 0 has to have.
  pub record IsJustified (ns : List Node) (height : ℕ) (p : Proof) : Type 0 where
    pub next : height ≡ add64 p.height 1
    pub weighty :
        mul64 (get_total_weight ns) 2 < mul64 (get_votes_weight ns (voters p.precommit_votes)) 3
    pub signed : All (Signed ns p) p.precommit_votes

  all-Signed :
      (ns : List Node) (p : Proof) (es : HashMap Address Signature)
      → all (vote_passes ns p) es ≡ true
      → All (Signed ns p) es
  all-Signed ns p [] h = tt
  all-Signed ns p ((voter, sig) ∷ es) h =
      let x = check_sig sig (vote_hash (precommit_of p voter)) in
      elim (Option-cases x) [
        | inl bad ↦ absurd (ground arith)
        | inr (a, e) ↦ (
          (ground (arith), ground (arith, list_beq_iff a voter)),
          all-Signed ns p es (ground arith),
        )
      ]

  Signed-all :
      (ns : List Node) (p : Proof) (es : HashMap Address Signature)
      → All (Signed ns p) es
      → all (vote_passes ns p) es ≡ true
  Signed-all ns p [] h = refl
  Signed-all ns p ((voter, sig) ∷ es) ((listed, good), rest) =
      ground (arith, Signed-all ns p es rest, list_beq_iff voter voter)

  -- `check_proof` accepts a proof of a height above 0 exactly when it is for the height below,
  -- its voters have more than two thirds of the weight (in 64-bit arithmetic), and each entry is
  -- an authority with its signature on the precommit that the proof states.
  pub check_proof-IsJustified :
      (p : Proof) (height : ℕ) (ns : List Node)
      → 0 < p.height
      → (check_proof p height ns ≡ true) ↔ IsJustified ns height p
  unfolding check_proof
  check_proof-IsJustified p height ns pos = (
    λ accepted. record {
      next = ground (arith);
      weighty = ground (arith);
      signed = all-Signed ns p p.precommit_votes (ground arith);
    },
    λ j. ground (arith, Signed-all ns p p.precommit_votes j.signed),
  )
