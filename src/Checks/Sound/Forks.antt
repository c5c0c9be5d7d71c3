-- ===== src/Checks/Sound/Forks.antt =====
-- About two accepted proofs of one height: `check_proof` of src/lib.rs.
use bft_rs.Prelude.{
  ℕ, ◌*◌, ◌^◌, ◌<◌, ◌≡◌, ◌≢◌, ap, true, some, List, [], ◌∷◌, HashMap, All, arith, list_beq_iff,
  list_beq, Bool-cases, inl, inr, mul64,
}
use bft_rs.Objects.{Address, Signature, Node, Proof, Vote}
use bft_rs.Env.{Env}
use bft_rs.Weight.{contains, get_total_weight, get_votes_weight}
use bft_rs.Weight.Quorum.{
  HasQuorum, total_of, common, quorum_intersection, get_total_weight_exact, get_votes_weight_exact,
  weight_of-le_total,
}
use bft_rs.Checks.{check_proof, vote_hash, precommit_of, is_authority, voters}
use bft_rs.Checks.Sound.{Signed, check_proof-IsJustified}

-- On weights below 2 ^ 62 the 64-bit test is the exact one.
HasQuorum-exact :
    (ns : List Node) (xs : List Address)
    → total_of ns < 2 ^ 62
    → mul64 (get_total_weight ns) 2 < mul64 (get_votes_weight ns xs) 3
    → HasQuorum ns xs
HasQuorum-exact ns xs small h = omega (
  arith,
  get_total_weight_exact ns,
  get_votes_weight_exact ns xs,
  weight_of-le_total (λ n. contains xs n.address) ns,
)

module _ ⦃env : Env⦄ where
  open env use {check_sig}

  -- The voter's signature on the precommit of a proof is known.
  abbrev pub HasSigned : Proof → Address → Type 0
  HasSigned p a = (sig : Signature) × (check_sig sig (vote_hash (precommit_of p a)) ≡ some a)

  -- An authority that signed the precommits of both proofs, which differ.
  abbrev pub DoubleSigned : List Node → Proof → Proof → Address → Type 0
  DoubleSigned ns p q a =
      (is_authority ns a ≡ true)
      × HasSigned p a
      × HasSigned q a
      × (precommit_of p a ≢ precommit_of q a)

  entry_of :
      (ns : List Node) (q : Proof) (es : HashMap Address Signature) (a : Address)
      → All (Signed ns q) es
      → contains (voters es) a ≡ true
      → HasSigned q a
  entry_of ns q [] a all found = cc
  entry_of ns q ((b, sig) ∷ es) a all found = elim (Bool-cases (list_beq b a)) [
    | inl same ↦ let e : b ≡ a = (list_beq_iff b a).0 same in (sig, rw (← e) all.0.1)
    | inr other ↦ entry_of ns q es a all.1 (ground arith)
  ]

  precommits_differ :
      (p q : Proof) (a : Address)
      → p.block_hash ≢ q.block_hash
      → precommit_of p a ≢ precommit_of q a
  precommits_differ p q a ne e = ne (ap (λ (v : Vote). v.block_hash) e)

  common-DoubleSigned :
      (ns : List Node) (p q : Proof) (es : HashMap Address Signature)
      → p.block_hash ≢ q.block_hash
      → All (Signed ns p) es
      → All (Signed ns q) q.precommit_votes
      → All (DoubleSigned ns p q) (common (voters es) (voters q.precommit_votes))
  common-DoubleSigned ns p q [] ne all all' = tt
  common-DoubleSigned ns p q ((a, sig) ∷ es) ne all all' =
      let rest = common-DoubleSigned ns p q es ne all.1 all' in
      elim (Bool-cases (contains (voters q.precommit_votes) a)) [
        | inl both ↦ rw both (
          (
            all.0.0,
            (sig, all.0.1),
            entry_of ns q q.precommit_votes a all' both,
            precommits_differ p q a ne,
          ),
          rest,
        )
        | inr one ↦ rw one rest
      ]

  -- If `check_proof` accepts two proofs of one height above 0 with different blocks, under an
  -- authority list of less than 2 ^ 62 in weight, then more than a third of the weight is held by
  -- voters in both, and each of these is an authority whose signatures on two different precommits
  -- of that height are both known.
  pub check_proof_fork :
      (p q : Proof) (height : ℕ) (ns : List Node)
      → total_of ns < 2 ^ 62
      → 0 < p.height
      → p.height ≡ q.height
      → p.block_hash ≢ q.block_hash
      → check_proof p height ns ≡ true
      → check_proof q height ns ≡ true
      → (get_total_weight ns
          < get_votes_weight ns (common (voters p.precommit_votes) (voters q.precommit_votes)) * 3)
        × All (DoubleSigned ns p q) (common (voters p.precommit_votes) (voters q.precommit_votes))
  check_proof_fork p q height ns small pos same ne hp hq =
      let jp = (check_proof-IsJustified p height ns pos).0 hp in
      let jq = (check_proof-IsJustified q height ns (omega arith)).0 hq in
      (
        quorum_intersection ns (voters p.precommit_votes) (voters q.precommit_votes) small
            (HasQuorum-exact ns (voters p.precommit_votes) small jp.weighty)
            (HasQuorum-exact ns (voters q.precommit_votes) small jq.weighty),
        common-DoubleSigned ns p q p.precommit_votes ne jp.signed jq.signed,
      )
