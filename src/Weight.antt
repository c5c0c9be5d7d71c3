-- ===== src/Weight.antt =====
-- The weights of src/utils.rs: `get_total_weight`, `get_votes_weight` and `get_index` (the version
-- without the feature `random_proposer`).
pub mod Quorum
pub mod Index
pub mod Random
use bft_rs.Prelude.{
  ℕ, zero, suc, ◌+◌, ◌%◌, Bool, List, [], ◌∷◌, map, BftResult, ok, panic, any, filterb, ltb,
  if◌then◌else◌, add64, ◌==◌, list_eq, nat_eq,
}
use bft_rs.Objects.{Address, Node}

-- `iter().sum()` of `u64`s.
unfoldable pub sum64 : List ℕ → ℕ
sum64 [] = 0
sum64 (w ∷ ws) = add64 w (sum64 ws)

-- `vote_addresses.contains(a)`
abbrev pub contains : List Address → Address → Bool
contains xs a = any (λ b. b == a) xs

unfoldable pub get_total_weight : List Node → ℕ
get_total_weight authorities = sum64 (map (λ (n : Node). n.vote_weight) authorities)

unfoldable pub get_votes_weight : List Node → List Address → ℕ
get_votes_weight authorities vote_addresses = sum64 (
    map (λ (n : Node). n.vote_weight)
      (filterb (λ (n : Node). contains vote_addresses n.address) authorities))

-- The loop over `weight.iter().enumerate()`.
unfoldable pub index_loop : ℕ → ℕ → ℕ → List ℕ → ℕ
index_loop x acc index [] = 0
index_loop x acc index (w ∷ ws) =
    let rest = index_loop x (add64 acc w) (index + 1) ws in
    if ltb x (add64 acc w) then index else rest

-- `seed % sum` panics at an empty sum.
unfoldable pub get_index : ℕ → List ℕ → BftResult ℕ
unfolding index_loop sum64
get_index seed weight =
    if sum64 weight == 0 then panic else ok (index_loop (seed % sum64 weight) 0 0 weight)
