-- ===== src/Core/Commits.antt =====
-- The proof that a node commits with: `check_precommit_count` of src/algorithm.rs, `generate_proof`
-- of src/utils.rs and `check_proof` of src/lib.rs.
pub mod Tally
pub mod Stored
pub mod Invariant
pub mod Within
pub mod Spawns
pub mod Fork
use bft_rs.Prelude.{
  ℕ, ◌*◌, ◌^◌, ◌<◌, ◌≡◌, refl, ap, sym, ◌∙◌, Bool, true, false, ◌||◌, some, List, [], ◌∷◌, HashMap,
  All, ok, arith, add64, mul64, insert, lookup, lookup_or, contains_key, IsMap, list_beq,
  list_beq_iff, list_eq, Bool-cases, inl, inr, ◌==◌,
}
use mathlib.Core.List.{Memᴰ}
use bft_rs.Objects.{
  Address, Hash, Signature, Node, Vote, VoteType, SignedVote, LockStatus, PrecommitRes, Proof,
}
use bft_rs.Env.{Env}
use bft_rs.Weight.{contains, get_total_weight, get_votes_weight}
use bft_rs.Weight.Quorum.{weight_of, total_of, get_votes_weight_exact}
use bft_rs.Checks.{check_proof, voters, vote_hash, precommit_of}
use bft_rs.Checks.Sound.{Signed, IsJustified, check_proof-IsJustified}
use bft_rs.Collect.VoteSet.{VoteSet, extract_polc, polc_of}
use bft_rs.Collect.Votes
use bft_rs.Machine.State.{Bft}
use bft_rs.Machine.Access.{generate_proof, collect_votes, cal_above_threshold}
use bft_rs.Core.Counting.{check_precommit_count}
use bft_rs.Core.Counting.Locks.{HasQuorumFor, lock_of, check_precommit_count-proposal}
use bft_rs.Core.Height.Events.{Stays, stays, Stays-Locks}
use bft_rs.Core.Height.Handlers.{check_precommit_count-Keeps}
use bft_rs.Core.Commits.Tally.{IsTallied, IsCast, IsEntry, HasDistinct, voted, weight_of-ext}

All-insert_sig {κ} :
    (P : Address × Signature → Type κ) (a : Address) (x : Signature) (m : HashMap Address Signature)
    → P (a, x)
    → All P m
    → All P (insert a x m)
All-insert_sig P a x [] p ps = (p, tt)
All-insert_sig P a x ((b, y) ∷ m) p ps = elim (Bool-cases (list_beq b a)) [
  | inl here ↦ let e : b ≡ a = (list_beq_iff b a).0 here in rw here (rw (← e) at p, ps.1)
  | inr there ↦ rw there (ps.0, All-insert_sig P a x m p ps.1)
]

contains-insert_sig :
    (a b : Address) (x : Signature) (m : HashMap Address Signature)
    → contains (voters (insert a x m)) b ≡ (list_beq a b || contains (voters m) b)
contains-insert_sig a b x [] = ground arith
contains-insert_sig a b x ((c, y) ∷ m) =
    ground (arith, contains-insert_sig a b x m, list_beq_iff c a)

module _ ⦃env : Env⦄ where
  All-collect {κ} :
      (P : Address × Signature → Type κ) (vs : List SignedVote) (m : HashMap Address Signature)
      → All (λ v. P (v.vote.voter, v.signature)) vs
      → All P m
      → All P (collect_votes vs m)
  All-collect P [] m hs h = h
  All-collect P (v ∷ vs) m hs h =
      All-collect P vs (insert v.vote.voter v.signature m) hs.1
        (All-insert_sig P v.vote.voter v.signature m hs.0 h)

  contains-collect :
      (vs : List SignedVote) (m : HashMap Address Signature) (a : Address)
      → contains (voters (collect_votes vs m)) a ≡ (voted vs a || contains (voters m) a)
  contains-collect [] m a = refl
  contains-collect (v ∷ vs) m a = ground (
    arith,
    contains-collect vs (insert v.vote.voter v.signature m) a,
    contains-insert_sig v.vote.voter a v.signature m,
  )

  -- A vote is the precommit that a proof states of its voter.
  vote-precommit_of :
      (p : Proof) (v : Vote)
      → v.vote_type ≡ VoteType.precommit
      → v.height ≡ p.height
      → v.round ≡ p.round
      → v.block_hash ≡ p.block_hash
      → precommit_of p v.voter ≡ v
  vote-precommit_of p v t h r b = rw (← t, ← h, ← r, ← b) refl

  polc_of-Signed :
      (ns : List Node) (p : Proof) (m : HashMap Address SignedVote)
      → All (IsEntry ns p.height p.round VoteType.precommit) m
      → All (λ v. Signed ns p (v.vote.voter, v.signature)) (polc_of p.block_hash m)
  polc_of-Signed ns p [] h = tt
  polc_of-Signed ns p ((a, v) ∷ m) h = elim (Bool-cases (list_beq v.vote.block_hash p.block_hash)) [
    | inl same ↦
        let cast = h.0.1 in
        let e =
          vote-precommit_of p v.vote cast.of_kind cast.of_height cast.of_round
            ((list_beq_iff v.vote.block_hash p.block_hash).0 same) in
        rw same ((cast.listed, rw e cast.signed), polc_of-Signed ns p m h.1)
    | inr other ↦ rw other (polc_of-Signed ns p m h.1)
  ]

  -- The proof that `generate_proof` makes of the votes of a tallied set for a hash with enough
  -- weight.
  generate_proof-accepted :
      (ns : List Node) (s : Bft) (round : ℕ) (hash : Hash) (set : VoteSet)
      → IsTallied ns s.height round VoteType.precommit set
      → total_of ns < 2 ^ 64
      → 0 < s.height
      → mul64 (get_total_weight ns) 2 < mul64 (lookup_or hash 0 set.votes_by_proposal) 3
      → check_proof
          (generate_proof s
            (record { block_hash = hash; round = round; votes = extract_polc set hash }))
          (add64 s.height 1)
          ns
        ≡ true
  unfolding generate_proof extract_polc
  generate_proof-accepted ns s round hash set t fits pos weighty =
      let lock : LockStatus = record {
        block_hash = hash;
        round = round;
        votes = extract_polc set hash;
      } in
      let p = generate_proof s lock in
      let xs = voters p.precommit_votes in
      let same =
        weight_of-ext (contains xs) (voted (polc_of hash set.votes_by_sender)) ns
          (λ a. ground (arith, contains-collect (polc_of hash set.votes_by_sender) [] a)) in
      let weight : get_votes_weight ns xs ≡ lookup_or hash 0 set.votes_by_proposal =
        get_votes_weight_exact ns xs fits ∙ same ∙ sym (t.tally hash) in
      (check_proof-IsJustified p (add64 s.height 1) ns pos).1 (record {
        next = refl;
        weighty = rw weight weighty;
        signed =
            All-collect (Signed ns p) (polc_of hash set.votes_by_sender) []
              (polc_of-Signed ns p set.votes_by_sender t.entries) tt;
      })

pub lookup-Mem :
    (h : Hash) (n : ℕ) (m : HashMap Hash ℕ) → IsMap m → Memᴰ (h, n) m → lookup h m ≡ some n
lookup-Mem h n [] is_map i = elim i [ ]
lookup-Mem h n ((g, k) ∷ m) is_map (Memᴰ.head e) =
    ground (arith, ap (λ (p : Hash × ℕ). p.0) e, ap (λ (p : Hash × ℕ). p.1) e, list_beq_iff g h)
lookup-Mem h n ((g, k) ∷ m) is_map (Memᴰ.tail i) =
    let rest = lookup-Mem h n m is_map.1 i in
    elim (Bool-cases (list_beq g h)) [
      | inl same ↦
          let e : g ≡ h = (list_beq_iff g h).0 same in
          let absent : contains_key h m ≡ false = rw e at is_map.0 in absurd (ground (arith, rest))
      | inr other ↦ rw other rest
    ]

module _ ⦃env : Env⦄ where
  -- If the count of precommits ends in a proposal to commit, then the node is locked, and
  -- `check_proof` accepts the proof that `generate_proof` makes of the lock, for the next height.
  -- This holds at a height above 0, for authorities with different addresses and of less than 2 ^ 64
  -- in weight, if every set of precommits of this height is tallied.
  pub check_precommit_count-accepted :
      (s : Bft)
      → 0 < s.height
      → total_of s.authority_manage.authorities < 2 ^ 64
      → ((round : ℕ) (set : VoteSet)
          → (Votes.get_voteset s.height round VoteType.precommit s.votes).0 ≡ some set
          → IsTallied s.authority_manage.authorities s.height round VoteType.precommit set)
      → (check_precommit_count s).0 ≡ ok PrecommitRes.proposal
      → let s' = (check_precommit_count s).1 in
        (lock : LockStatus) × (s'.lock_status ≡ some lock)
        × (check_proof (generate_proof s' lock) (add64 s'.height 1) s.authority_manage.authorities
            ≡ true)
  unfolding cal_above_threshold
  check_precommit_count-accepted s pos fits tallied h =
      let s' = (check_precommit_count s).1 in
      let (hash, set, (read, full, (count, member, above)), lock, block, later) =
        check_precommit_count-proposal s h in
      let t = tallied s'.round set read in
      let same : s'.height ≡ s.height =
        (check_precommit_count-Keeps (stays s.height) (Stays-Locks s.height)).at s refl in
      let counts = lookup-Mem hash count set.votes_by_proposal t.keyed member in
      let ns = s.authority_manage.authorities in
      let weighty : mul64 (get_total_weight ns) 2
          < mul64 (lookup_or hash 0 set.votes_by_proposal) 3 =
        ground (arith, counts) in
      (
        lock_of s' hash set,
        lock,
        generate_proof-accepted ns s' s'.round hash set (rw same t) fits (rw same pos) weighty,
      )
