-- ===== src/Tests/Sample/Lru.antt =====
-- A cache of bounded size as a list, the last used entry first.
use mathlib.Core.Option
use bft_rs.Prelude.{
  ℕ, zero, suc, ◌-◌, Bool, Option, none, some, List, [], ◌∷◌, map, take, nat_beq, if◌then◌else◌,
  is_some, ◌≡◌, ◌≢◌, ◌⊎◌, refl, arith, inl, inr, ◌<◌, Option-cases,
}

abbrev pub Cache : Type 0 → Type 0
Cache V = ℕ × List (ℕ × V)

abbrev pub peek : {V : Type 0} → ℕ → List (ℕ × V) → Option V
peek k [] = none
peek k ((j, v) ∷ m) = if nat_beq j k then some v else peek k m

abbrev pub drop_key : {V : Type 0} → ℕ → List (ℕ × V) → List (ℕ × V)
drop_key k [] = []
drop_key k ((j, v) ∷ m) = if nat_beq j k then drop_key k m else (j, v) ∷ drop_key k m

abbrev pub new : {V : Type 0} → ℕ → Cache V
new n = (n, [])

abbrev pub has : {V : Type 0} → ℕ → Cache V → Bool
has k (n, m) = is_some (peek k m)

abbrev pub writer : {V : Type 0} → ℕ → Cache V → V → Cache V
writer k (n, m) v = (n, (k, v) ∷ drop_key k m)

abbrev pub get_mut : {V : Type 0} → ℕ → Cache V → Option (V × (V → Cache V))
get_mut k c = elim (peek k c.1) [ none ↦ none | some v ↦ some (v, writer k c) ]

abbrev pub insert : {V : Type 0} → ℕ → V → Cache V → Cache V
insert k v (n, m) = (n, take n ((k, v) ∷ drop_key k m))

abbrev pub remove : {V : Type 0} → ℕ → Cache V → Option V × Cache V
remove k (n, m) = (peek k m, (n, drop_key k m))

abbrev pub values : {V : Type 0} → Cache V → List V
values (n, m) = map (λ e. e.1) m

pub peek-drop_key :
    {V : Type 0} (k j : ℕ) (m : List (ℕ × V))
    → peek j (drop_key k m) ≡ (if nat_beq k j then none else peek j m)
peek-drop_key k j [] = ground arith
peek-drop_key k j ((i, v) ∷ m) = ground (arith, peek-drop_key k j m)

peek-take :
    {V : Type 0} (n j : ℕ) (m : List (ℕ × V))
    → (peek j (take n m) ≡ peek j m) ⊎ (peek j (take n m) ≡ none)
peek-take zero j m = inr refl
peek-take (suc n) j [] = inl refl
peek-take (suc n) j ((i, v) ∷ m) = ground (arith, peek-take n j m)

module _ {V : Type 0} (k : ℕ) (c : Cache V) where
  pub view : (j : ℕ) → Option.map (λ r. r.0) (get_mut j c) ≡ peek j c.1
  view j = ground arith

  pub writes :
      (j : ℕ) (r : V × (V → Cache V)) (v : V)
      → get_mut k c ≡ some r
      → (peek j (r.1 v).1 ≡ (if nat_beq k j then some v else peek j c.1)) × ((r.1 v).0 ≡ c.0)
  writes j r v e = elim (Option-cases (peek k c.1)) [
    | inl none_there ↦ absurd (ground arith)
    | inr (w, there) ↦
        let same : (w, writer k c) ≡ r = ground arith in
        rw (← same) (ground (arith, peek-drop_key k j c.1), refl)
  ]

  pub inserts_self : (v : V) → 0 < c.0 → peek k (insert k v c).1 ≡ some v
  inserts_self v h = let e : c.0 ≡ suc (c.0 - 1) = omega arith in rw e (ground arith)

  pub inserts_other :
      (j : ℕ) (v : V)
      → k ≢ j
      → (peek j (insert k v c).1 ≡ peek j c.1) ⊎ (peek j (insert k v c).1 ≡ none)
  inserts_other j v ne =
      ground (arith, peek-take c.0 j ((k, v) ∷ drop_key k c.1), peek-drop_key k j c.1)
