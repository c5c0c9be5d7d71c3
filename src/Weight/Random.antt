-- ===== src/Weight/Random.antt =====
-- `get_index` of src/utils.rs with the feature `random_proposer`: it draws from the generator `Pcg` of
-- the crate rand_pcg until a draw is below a multiple of the sum.
use native.Mathlib.Nat.{mul-le-mul_right, mul-le-mul_left, mod-lt}
use native.Mathlib.Omega.{div_any}
use bft_rs.Prelude.{
  ℕ, zero, suc, ◌+◌, ◌-◌, ◌*◌, ◌/◌, ◌^◌, ◌<◌, ◌≤◌, ◌≡◌, refl, ap, ◌∙◌, false, Option, none, some,
  List, [], ◌∷◌, BftResult, ok, panic, length, take, arith, ltb, leb, add64, mul64, nat_eq, ◌==◌,
  if◌then◌else◌, Bool-cases, inl, inr, ◌⊎◌,
}
use bft_rs.Weight.{sum64}
use bft_rs.Weight.Index.{sum, sum64_exact}

-- `Pcg` as the code uses it: a state, and the next 64-bit word with the state after it.
pub record Generator : Type 1 where
  pub Pcg : Type 0
  pub seed_from_u64 : ℕ → Pcg
  pub next_u64 : Pcg → ℕ × Pcg

-- `u64::max_value() / sum`
abbrev pub share : ℕ → ℕ
share total = (2 ^ 64 - 1) / total

-- The loop over `weight.iter().enumerate()`.
unfoldable pub share_loop : ℕ → ℕ → ℕ → ℕ → List ℕ → ℕ
share_loop x res acc index [] = 0
share_loop x res acc index (w ∷ ws) =
    let rest = share_loop x res (add64 acc w) (index + 1) ws in
    if ltb res (mul64 (add64 acc w) x) then index else rest

module _ (g : Generator) where
  open g use {Pcg, seed_from_u64, next_u64}

  -- `while res >= sum * x { res = rng.next_u64(); }`, from the draw `res`; `none` is out of fuel.
  unfoldable pub redraw : ℕ → ℕ → ℕ → Pcg → Option ℕ
  redraw zero limit res rng = none
  redraw (suc fuel) limit res rng =
      let (r, rng') = next_u64 rng in
      let rest = redraw fuel limit r rng' in if leb limit res then rest else some res

  abbrev index_of : ℕ → List ℕ → Option ℕ → Option (BftResult ℕ)
  index_of x weight none = none
  index_of x weight (some res) = some (ok (share_loop x res 0 0 weight))

  -- The division by a sum of zero panics.
  unfoldable pub get_index_random : ℕ → ℕ → List ℕ → Option (BftResult ℕ)
  unfolding redraw share_loop sum64
  get_index_random fuel seed weight =
      let total = sum64 weight in
      let (res, rng) = next_u64 (seed_from_u64 seed) in
      let found = index_of (share total) weight (redraw fuel (mul64 total (share total)) res rng) in
      if total == 0 then some panic else found

  -- The draw of this number from a state, the first being 0.
  abbrev pub nth_draw : ℕ → Pcg → ℕ
  nth_draw zero rng = (next_u64 rng).0
  nth_draw (suc n) rng = nth_draw n (next_u64 rng).1

-- The multiple of the sum below which a draw is taken fits in 64 bits, and at least half of
-- the 64-bit words are below it.
share_bounds :
    (total : ℕ)
    → 0 < total
    → total < 2 ^ 64
    → (total * share total < 2 ^ 64) × (2 ^ 64 ≤ total * share total * 2)
share_bounds total positive fits =
    let split = div_any (2 ^ 64 - 1) total in
    let small = mod-lt (2 ^ 64 - 1) positive in
    let some_share : 0 < share total = share_pos total positive fits in
    let grows = mul-le-mul_left total some_share in (omega arith, omega arith)
  where
    share_pos : (total : ℕ) → 0 < total → total < 2 ^ 64 → 0 < share total
    share_pos total positive fits = elim (share_zero (share total)) [
      | inl e ↦
          let split = div_any (2 ^ 64 - 1) total in
          let none_of : total * share total ≡ 0 = rw e (omega arith) in
          let small = mod-lt (2 ^ 64 - 1) positive in absurd (omega arith)
      | inr p ↦ p
    ]
      where
        share_zero : (n : ℕ) → (n ≡ 0) ⊎ (0 < n)
        share_zero n = ground arith

share_loop_lem :
    (x res acc index : ℕ) (ws : List ℕ)
    → (acc + sum ws) * x < 2 ^ 64
    → acc + sum ws < 2 ^ 64
    → acc * x ≤ res
    → res < (acc + sum ws) * x
    → (k : ℕ) × (share_loop x res acc index ws ≡ index + k)
      × (k < length ws)
      × ((acc + sum (take k ws)) * x ≤ res)
      × (res < (acc + sum (take (suc k) ws)) * x)
unfolding share_loop
share_loop_lem x res acc index [] fits small lo hi = absurd (omega (arith, lo, hi))
share_loop_lem x res acc index (w ∷ ws) fits small lo hi =
    let part : (acc + w) * x ≤ (acc + (w + sum ws)) * x = mul-le-mul_right x (omega arith) in
    let next : add64 acc w ≡ acc + w = omega arith in
    let exact : mul64 (add64 acc w) x ≡ (acc + w) * x = rw next (omega arith) in
    elim (Bool-cases (ltb res (mul64 (add64 acc w) x))) [
      | inl here ↦
          let below : res < mul64 (add64 acc w) x = ground arith in
          (0, rw here (omega arith), omega arith, omega arith, omega arith)
      | inr there ↦
          let above : mul64 (add64 acc w) x ≤ res = ground arith in
          let (k, found, inside, from, to) =
            share_loop_lem x res (acc + w) (index + 1) ws (omega arith) (omega arith) (omega arith)
              (omega arith) in
          let step : share_loop x res acc index (w ∷ ws)
              ≡ share_loop x res (acc + w) (index + 1) ws =
            rw (there, next) refl in
          (suc k, omega (arith, step, found), omega arith, omega arith, omega arith)
    ]

module _ (g : Generator) where
  open g use {Pcg, seed_from_u64, next_u64}

  -- If one of the draws from `res` on is below the limit, the loop ends with a draw below it, on
  -- more fuel than the draws before that one.
  redraw_lem :
      (n fuel limit : ℕ) (rng : Pcg)
      → nth_draw g n rng < limit
      → n < fuel
      → (res : ℕ) × (redraw g fuel limit (next_u64 rng).0 (next_u64 rng).1 ≡ some res)
        × ((m : ℕ) × (nth_draw g m rng ≡ res) × (m ≤ n))
        × (res < limit)
  unfolding redraw
  redraw_lem n zero limit rng good enough = absurd (omega arith)
  redraw_lem zero (suc fuel) limit rng good enough =
      let taken : leb limit (next_u64 rng).0 ≡ false = ground arith in
      ((next_u64 rng).0, rw taken refl, (0, refl, omega arith), good)
  redraw_lem (suc n) (suc fuel) limit rng good enough =
      let (res, found, (m, drawn, le), below) =
        redraw_lem n fuel limit (next_u64 rng).1 good (omega arith) in
      elim (Bool-cases (leb limit (next_u64 rng).0)) [
        | inl refused ↦ (res, rw refused found, (suc m, drawn, omega arith), below)
        | inr taken ↦ ((next_u64 rng).0, rw taken refl, (0, refl, omega arith), ground arith)
      ]

  -- With the feature, if one of the generator's draws for the seed is below the multiple of the sum,
  -- `get_index` ends, on more fuel than the draws before that one, with the index whose share of the
  -- range 0 .. sum * x holds a draw: the shares before it end at or below the draw, and its own above
  -- it. The weights are not all zero and sum to less than 2 ^ 64.
  pub get_index_random_lem :
      (n fuel seed : ℕ) (weight : List ℕ)
      → 0 < sum weight
      → sum weight < 2 ^ 64
      → nth_draw g n (seed_from_u64 seed) < sum weight * share (sum weight)
      → n < fuel
      → (k : ℕ) × (m : ℕ) × (get_index_random g fuel seed weight ≡ some (ok k))
        × (k < length weight)
        × (m ≤ n)
        × (sum (take k weight) * share (sum weight) ≤ nth_draw g m (seed_from_u64 seed))
        × (nth_draw g m (seed_from_u64 seed) < sum (take (suc k) weight) * share (sum weight))
  unfolding get_index_random
  get_index_random_lem n fuel seed weight positive fits good enough =
      let x = share (sum weight) in
      let total = sum64_exact weight fits in
      let (below64, half) = share_bounds (sum weight) positive fits in
      let (res, found, (m, drawn, le), below) =
        redraw_lem n fuel (sum weight * x) (seed_from_u64 seed) good enough in
      let (k, index, inside, from, to) =
        share_loop_lem x res 0 0 weight (omega arith) (omega arith) (omega arith) (omega arith) in
      let at : share_loop x res 0 0 weight ≡ k = omega (arith, index) in
      let exact : mul64 (sum weight) x ≡ sum weight * x = omega arith in
      let test : (sum weight == 0) ≡ false = ground arith in
      let run : get_index_random g fuel seed weight ≡ some (ok (share_loop x res 0 0 weight)) =
        rw (total, test, exact, found) refl in
      (
        k,
        m,
        run ∙ ap (λ i. some (ok i)) at,
        inside,
        le,
        omega (arith, drawn, from),
        omega (arith, drawn, to),
      )
