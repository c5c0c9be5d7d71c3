-- ===== src/Core/Counting/Rounds.antt =====
-- About the loops over the counters in `check_prevote_count` and `check_precommit_count`.
use bft_rs.Prelude.{
  ℕ, ◌≤◌, ◌≡◌, refl, ap, ◌∙◌, ◌⊎◌, Bool, true, false, [], ◌∷◌, HashMap, arith, inl, inr, All,
}
use mathlib.Core.List.{Permᴰ, Memᴰ}
use bft_rs.Env.{Env}
use bft_rs.Machine.State.{Bft}
use bft_rs.Machine.Access.{cal_above_threshold}
use bft_rs.Core.Counting.{count_round, count_rounds}

module _ ⦃env : Env⦄ where
  -- What one round of the loop keeps and reaches.
  count_round-frame :
      (e : ℕ × ℕ) (acc : Bool × Bft)
      → let s = acc.1 in
        let s' = (count_round e acc).1 in
        s' ≡ record s { round = s'.round; round_filter = s'.round_filter }
  unfolding count_round
  count_round-frame e acc = ground arith

  count_rounds-frame :
      (acc : Bool × Bft) (m : HashMap ℕ ℕ)
      → let s' = (count_rounds acc m).1 in
        s' ≡ record acc.1 { round = s'.round; round_filter = s'.round_filter }
  unfolding count_rounds
  count_rounds-frame acc [] = refl
  count_rounds-frame acc (e ∷ m) =
      ground (arith, count_rounds-frame (count_round e acc) m, count_round-frame e acc)

  count_round_comm :
      (a b : ℕ × ℕ) (acc : Bool × Bft)
      → count_round a (count_round b acc) ≡ count_round b (count_round a acc)
  unfolding count_round cal_above_threshold
  count_round_comm a b acc = ground arith

  -- The order in which the map yields its entries does not change the outcome: neither the flag
  -- nor the state.
  count_rounds-perm :
      (acc : Bool × Bft) {m m' : HashMap ℕ ℕ}
      → Permᴰ m m'
      → count_rounds acc m ≡ count_rounds acc m'
  unfolding count_rounds
  count_rounds-perm acc Permᴰ.nil = refl
  count_rounds-perm acc (Permᴰ.cons {a = a} {b = b} {l₁ = l} e p) =
      rw (← e) (count_rounds-perm (count_round a acc) p)
  count_rounds-perm acc (Permᴰ.swap {a = a} {b = b} {l = l} e e') =
      rw (← e, ← e', count_round_comm b a acc)
  count_rounds-perm acc (Permᴰ.trans p q) = count_rounds-perm acc p ∙ count_rounds-perm acc q

  count_round-above :
      (e : ℕ × ℕ) (acc : Bool × Bft) (count : ℕ)
      → cal_above_threshold (count_round e acc).1 count ≡ cal_above_threshold acc.1 count
  unfolding count_round cal_above_threshold
  count_round-above e acc count = ground arith

  count_round-cases :
      (e : ℕ × ℕ) (acc : Bool × Bft)
      → (count_round e acc ≡ acc)
        ⊎ (((count_round e acc).0 ≡ true)
            × ((count_round e acc).1.round ≡ e.0)
            × (cal_above_threshold acc.1 e.1 ≡ true))
  unfolding count_round
  count_round-cases e acc = ground arith

  -- The loop left the accumulator alone, or stopped at a round whose counter has enough weight.
  count_rounds-reached :
      (acc : Bool × Bft) (m : HashMap ℕ ℕ)
      → (count_rounds acc m ≡ acc)
        ⊎ (((count_rounds acc m).0 ≡ true)
            × ((count : ℕ) × Memᴰ ((count_rounds acc m).1.round, count) m
                × (cal_above_threshold acc.1 count ≡ true)))
  unfolding count_rounds
  count_rounds-reached acc [] = inl refl
  count_rounds-reached acc (e ∷ m) =
      let acc' = count_round e acc in
      elim (count_rounds-reached acc' m) [
        | inl same ↦ (elim (count_round-cases e acc) [
          | inl kept ↦ inl (same ∙ kept)
          | inr (flag, round, above) ↦ inr (rw same flag, (e.1, Memᴰ.head (ground (arith)), above))
        ])
        | inr (flag, (count, found, above)) ↦
            inr (flag, (count, Memᴰ.tail found, rw (← count_round-above e acc count) above))
      ]

  count_round-grows :
      (e : ℕ × ℕ) (acc : Bool × Bft)
      → (acc.1.round ≤ (count_round e acc).1.round)
        × ((cal_above_threshold acc.1 e.1 ≡ false) ⊎ (e.0 ≤ (count_round e acc).1.round))
  unfolding count_round
  count_round-grows e acc = ground arith

  count_rounds-grows :
      (acc : Bool × Bft) (m : HashMap ℕ ℕ) → acc.1.round ≤ (count_rounds acc m).1.round
  unfolding count_rounds
  count_rounds-grows acc [] = omega arith
  count_rounds-grows acc (e ∷ m) =
      omega (arith, count_rounds-grows (count_round e acc) m, (count_round-grows e acc).0)

  covers_from :
      (s : Bft) (acc : Bool × Bft) (m : HashMap ℕ ℕ)
      → ((c : ℕ) → cal_above_threshold acc.1 c ≡ cal_above_threshold s c)
      → All (λ e. (cal_above_threshold s e.1 ≡ false) ⊎ (e.0 ≤ (count_rounds acc m).1.round)) m
  unfolding count_rounds
  covers_from s acc [] same = tt
  covers_from s acc (e ∷ m) same =
      let acc' = count_round e acc in
      (
        ground (arith, same e.1, count_round-grows e acc, count_rounds-grows acc' m),
        covers_from s acc' m (λ c. count_round-above e acc c ∙ same c),
      )

  -- The loop over the counters, from the flag `false`: it changes the round and its filter only;
  -- the round does not fall, and is no less than any round whose counter has enough weight; and
  -- either nothing changed, or the flag is set and the round reached has such a counter.
  pub count_rounds_lem :
      (s : Bft) (m : HashMap ℕ ℕ)
      → let (flag, s') = count_rounds (false, s) m in
        (s' ≡ record s { round = s'.round; round_filter = s'.round_filter })
        × (s.round ≤ s'.round)
        × All (λ e. (cal_above_threshold s e.1 ≡ false) ⊎ (e.0 ≤ s'.round)) m
        × (((flag ≡ false) × (s' ≡ s))
            ⊎ ((flag ≡ true)
                × ((count : ℕ) × Memᴰ (s'.round, count) m × (cal_above_threshold s count ≡ true))))
  count_rounds_lem s m = (
    count_rounds-frame (false, s) m,
    count_rounds-grows (false, s) m,
    covers_from s (false, s) m (λ c. refl),
    elim (count_rounds-reached (false, s) m) [
      | inl same ↦ inl (ap (λ (a : Bool × Bft). a.0) same, ap (λ (a : Bool × Bft). a.1) same)
      | inr found ↦ inr found
    ],
  )
