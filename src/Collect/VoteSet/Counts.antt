-- ===== src/Collect/VoteSet/Counts.antt =====
-- About the counters of a `VoteSet` of src/collectors.rs.
use bft_rs.Prelude.{
  ℕ, ◌+◌, ◌*◌, ◌^◌, ◌<◌, ◌≤◌, ◌≡◌, ◌≢◌, refl, [], ◌∷◌, HashMap, insert, lookup_or, add64, list_eq,
  list_beq, list_beq_iff, arith, Bool-cases, inl, inr,
}
use bft_rs.Objects.{Hash, SignedVote}
use bft_rs.Collect.VoteSet.{VoteSet, add, new}

-- The exact sum of the counters.
abbrev pub sum_counts : HashMap Hash ℕ → ℕ
sum_counts [] = 0
sum_counts ((_, n) ∷ m) = n + sum_counts m

sum_counts-insert :
    (h : Hash) (n : ℕ) (m : HashMap Hash ℕ)
    → sum_counts (insert h n m) + lookup_or h 0 m ≡ sum_counts m + n
sum_counts-insert h n [] = ground arith
sum_counts-insert h n ((j, k) ∷ m) = ground (arith, sum_counts-insert h n m)

lookup_or-le : (h : Hash) (m : HashMap Hash ℕ) → lookup_or h 0 m ≤ sum_counts m
lookup_or-le h [] = omega arith
lookup_or-le h ((j, k) ∷ m) = ground (arith, lookup_or-le h m)

-- Two entries under different keys are counted apart.
lookup_or-add-le :
    (g h : Hash) (m : HashMap Hash ℕ) → g ≢ h → lookup_or g 0 m + lookup_or h 0 m ≤ sum_counts m
lookup_or-add-le g h [] ne = omega arith
lookup_or-add-le g h ((j, k) ∷ m) ne = ground (
  arith,
  lookup_or-add-le g h m,
  lookup_or-le g m,
  lookup_or-le h m,
  list_beq_iff j g,
  list_beq_iff j h,
)

-- The number in `count` is the exact sum of the counts by proposal.
pub record IsCounted (s : VoteSet) : Type 0 where
  pub counted : sum_counts s.votes_by_proposal ≡ s.count

pub new-IsCounted : IsCounted new
new-IsCounted = record { counted = refl }

-- `add` keeps the count of all votes equal to the sum of the counts by proposal, if the new weight
-- does not overflow the count.
pub add-IsCounted :
    (v : SignedVote) (weight : ℕ) (s : VoteSet)
    → IsCounted s
    → s.count + weight < 2 ^ 64
    → IsCounted (add v weight s).1
unfolding add
add-IsCounted v weight s h fits = ground (
  arith,
  sum_counts-insert v.vote.block_hash
      (add64 (lookup_or v.vote.block_hash 0 s.votes_by_proposal) weight) s.votes_by_proposal,
  lookup_or-le v.vote.block_hash s.votes_by_proposal,
)

-- In a counted vote set whose count is at most the total weight, at most one block hash has more
-- than two thirds of that total.
quorum_unique :
    (s : VoteSet) (total : ℕ) (g h : Hash)
    → IsCounted s
    → s.count ≤ total
    → total * 2 < lookup_or g 0 s.votes_by_proposal * 3
    → total * 2 < lookup_or h 0 s.votes_by_proposal * 3
    → g ≡ h
quorum_unique s total g h c le hg hh = elim (Bool-cases (list_beq g h)) [
  | inl same ↦ (list_beq_iff g h).0 same
  | inr differ ↦ absurd (
      omega
        (arith, lookup_or-add-le g h s.votes_by_proposal (λ e. ground (arith, list_beq_iff g h))))
]
