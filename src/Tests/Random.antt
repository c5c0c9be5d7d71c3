-- ===== src/Tests/Random.antt =====
-- The random choice of a proposer over a concrete stream of draws.
use bft_rs.Prelude.{
  ℕ, zero, suc, ◌-◌, ◌*◌, ◌^◌, ◌<◌, ◌≤◌, ◌≡◌, refl, some, [], ◌∷◌, ok, take, arith,
}
use bft_rs.Weight.{sum64}
use bft_rs.Weight.Index.{sum}
use bft_rs.Weight.Random.{
  Generator, get_index_random, redraw, share_loop, share, nth_draw, get_index_random_lem,
}

-- The greatest word, and then small ones.
abbrev draw : ℕ → ℕ × ℕ
draw zero = (2 ^ 64 - 1, 1)
draw (suc n) = (5, suc n)

abbrev stream : Generator
stream = record { Pcg = ℕ; seed_from_u64 = λ seed. 0; next_u64 = draw }

-- The first draw is refused.
drawn_again : get_index_random stream 2 7 (1 ∷ 2 ∷ 3 ∷ []) ≡ some (ok 0)
unfolding get_index_random redraw share_loop sum64
drawn_again = refl

get_index_random_lem_example :
    (k : ℕ) × (m : ℕ) × (get_index_random stream 2 7 (1 ∷ 2 ∷ 3 ∷ []) ≡ some (ok k))
    × (k < 3)
    × (m ≤ 1)
    × (sum (take k (1 ∷ 2 ∷ 3 ∷ [])) * share 6 ≤ nth_draw stream m 0)
    × (nth_draw stream m 0 < sum (take (suc k) (1 ∷ 2 ∷ 3 ∷ [])) * share 6)
get_index_random_lem_example =
    get_index_random_lem stream 1 2 7 (1 ∷ 2 ∷ 3 ∷ []) (omega arith) (omega arith) (omega arith)
      (omega arith)
