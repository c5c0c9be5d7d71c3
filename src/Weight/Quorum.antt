-- ===== src/Weight/Quorum.antt =====
-- Sets of voters with more than two thirds of the weight, for the tests of src/utils.rs and src/lib.rs.
use bft_rs.Prelude.{
  ℕ, ◌+◌, ◌*◌, ◌^◌, ◌<◌, ◌≤◌, ◌≡◌, refl, Bool, true, ◌&&◌, List, [], ◌∷◌, filterb, arith,
  if◌then◌else◌, list_eq, list_beq_iff,
}
use bft_rs.Objects.{Address, Node}
use bft_rs.Weight.{sum64, contains, get_total_weight, get_votes_weight}

-- The exact weight of the nodes that pass a test.
abbrev pub weight_of : (Node → Bool) → List Node → ℕ
weight_of p [] = 0
weight_of p (n ∷ ns) = (if p n then n.vote_weight else 0) + weight_of p ns

abbrev pub total_of : List Node → ℕ
total_of = weight_of (λ _. true)

pub weight_of-le_total : (p : Node → Bool) (ns : List Node) → weight_of p ns ≤ total_of ns
weight_of-le_total p [] = omega arith
weight_of-le_total p (n ∷ ns) = ground (arith, weight_of-le_total p ns)

-- Inclusion and exclusion.
weight_of-and :
    (p q : Node → Bool) (ns : List Node)
    → weight_of p ns + weight_of q ns ≤ weight_of (λ n. p n && q n) ns + total_of ns
weight_of-and p q [] = omega arith
weight_of-and p q (n ∷ ns) = ground (arith, weight_of-and p q ns)

pub get_total_weight_exact :
    (ns : List Node) → total_of ns < 2 ^ 64 → get_total_weight ns ≡ total_of ns
unfolding get_total_weight sum64
get_total_weight_exact [] h = refl
get_total_weight_exact (n ∷ ns) h = ground (arith, get_total_weight_exact ns)

pub get_votes_weight_exact :
    (ns : List Node) (xs : List Address)
    → total_of ns < 2 ^ 64
    → get_votes_weight ns xs ≡ weight_of (λ n. contains xs n.address) ns
unfolding get_votes_weight sum64
get_votes_weight_exact [] xs h = refl
get_votes_weight_exact (n ∷ ns) xs h =
    ground (arith, get_votes_weight_exact ns xs, weight_of-le_total (λ n. contains xs n.address) ns)

-- The addresses of `xs` that are in `ys` too.
abbrev pub common : List Address → List Address → List Address
common xs ys = filterb (contains ys) xs

contains-common :
    (xs ys : List Address) (a : Address)
    → contains (common xs ys) a ≡ (contains xs a && contains ys a)
contains-common [] ys a = refl
contains-common (x ∷ xs) ys a = ground (arith, contains-common xs ys a, list_beq_iff x a)

weight_of-common :
    (ns : List Node) (xs ys : List Address)
    → weight_of (λ n. contains (common xs ys) n.address) ns
      ≡ weight_of (λ n. contains xs n.address && contains ys n.address) ns
weight_of-common [] xs ys = refl
weight_of-common (n ∷ ns) xs ys =
    ground (arith, weight_of-common ns xs ys, contains-common xs ys n.address)

-- The test of `check_proof`, `check_proof_only` and `check_lock_votes`.
abbrev pub HasQuorum : List Node → List Address → Type 0
HasQuorum ns xs = get_total_weight ns * 2 < get_votes_weight ns xs * 3

-- In an authority list whose weights sum to less than 2 ^ 62, two sets of voters that both pass
-- the test of two thirds have common voters of more than a third of the total weight.
pub quorum_intersection :
    (ns : List Node) (xs ys : List Address)
    → total_of ns < 2 ^ 62
    → HasQuorum ns xs
    → HasQuorum ns ys
    → get_total_weight ns < get_votes_weight ns (common xs ys) * 3
quorum_intersection ns xs ys small hx hy = omega (
  arith,
  get_total_weight_exact ns,
  get_votes_weight_exact ns xs,
  get_votes_weight_exact ns ys,
  get_votes_weight_exact ns (common xs ys),
  weight_of-common ns xs ys,
  weight_of-and (λ n. contains xs n.address) (λ n. contains ys n.address) ns,
)
