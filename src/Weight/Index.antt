-- ===== src/Weight/Index.antt =====
-- About `get_index` of src/utils.rs.
use bft_rs.Prelude.{
  ℕ, suc, ◌+◌, ◌%◌, ◌^◌, ◌<◌, ◌≤◌, ◌≡◌, refl, List, [], ◌∷◌, ok, panic, length, take, arith, ltb,
  Bool-cases, inl, inr,
}
use bft_rs.Weight.{sum64, index_loop, get_index}

-- The exact sum.
abbrev pub sum : List ℕ → ℕ
sum [] = 0
sum (w ∷ ws) = w + sum ws

pub sum64_exact : (ws : List ℕ) → sum ws < 2 ^ 64 → sum64 ws ≡ sum ws
unfolding sum64
sum64_exact [] h = refl
sum64_exact (w ∷ ws) h = ground (arith, sum64_exact ws)

index_loop_lem :
    (x acc index : ℕ) (ws : List ℕ)
    → acc + sum ws < 2 ^ 64
    → acc ≤ x
    → x < acc + sum ws
    → (k : ℕ) × (index_loop x acc index ws ≡ index + k)
      × (k < length ws)
      × (acc + sum (take k ws) ≤ x)
      × (x < acc + sum (take (suc k) ws))
unfolding index_loop
index_loop_lem x acc index [] fits lo hi = absurd (omega arith)
index_loop_lem x acc index (w ∷ ws) fits lo hi = elim (Bool-cases (ltb x (acc + w))) [
  | inl here ↦ (0, ground arith, omega arith, omega arith, ground arith)
  | inr there ↦
      let (k, found, below, from, to) =
        index_loop_lem x (acc + w) (index + 1) ws (omega arith) (ground arith) (omega arith) in
      (suc k, ground (arith, found), omega arith, omega arith, omega arith)
]

-- With weights that do not sum to zero and fit in 64 bits, `get_index` returns the index whose
-- share of the range 0 .. sum holds `seed % sum`: the weights before it sum to at most that
-- number, and with its own weight to more. In particular it is in range and has a weight above 0.
pub get_index_lem :
    (seed : ℕ) (weight : List ℕ)
    → 0 < sum weight
    → sum weight < 2 ^ 64
    → (k : ℕ) × (get_index seed weight ≡ ok k)
      × (k < length weight)
      × (sum (take k weight) ≤ seed % sum weight)
      × (seed % sum weight < sum (take (suc k) weight))
unfolding get_index
get_index_lem seed weight positive fits =
    let (k, found, below, from, to) =
      index_loop_lem (seed % sum weight) 0 0 weight (omega arith) (omega arith) (ground arith) in
    (k, ground (arith, sum64_exact weight), below, omega arith, omega arith)

-- An empty list, or weights that are all zero, make `get_index` panic.
get_index_zero : (seed : ℕ) (weight : List ℕ) → sum weight ≡ 0 → get_index seed weight ≡ panic
unfolding get_index
get_index_zero seed weight none_left = ground (arith, sum64_exact weight)
