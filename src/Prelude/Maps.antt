-- ===== src/Prelude/Maps.antt =====
-- `HashMap` as an association list. Its iteration order is the list's.
use mathlib.Core.Logic.{inl, inr}
use mathlib.Core.Path.{◌≡◌, refl}
use mathlib.Core.Bool.{Bool, false, ◌||◌}
use mathlib.Core.List.{List, [], ◌∷◌}
use mathlib.Core.Option.{Option, none, some}
use native.Mathlib.Omega.{arith}
use bft_rs.Prelude.Tests.{Bool-cases, if◌then◌else◌, Eq, ◌==◌}
use bft_rs.Prelude.Lists.{is_some}

abbrev pub HashMap : Type 0 → Type 0 → Type 0
HashMap K V = List (K × V)

module _ {K V : Type 0} ⦃e : Eq K⦄ where
  abbrev pub lookup : K → HashMap K V → Option V
  lookup k [] = none
  lookup k ((j, v) ∷ m) = if j == k then some v else lookup k m

  abbrev pub contains_key : K → HashMap K V → Bool
  contains_key k m = is_some (lookup k m)

  -- `insert` replaces the value of a key that is there.
  abbrev pub insert : K → V → HashMap K V → HashMap K V
  insert k v [] = (k, v) ∷ []
  insert k v ((j, w) ∷ m) = if j == k then (j, v) ∷ m else (j, w) ∷ insert k v m

  -- `entry(k).or_insert(d)`
  abbrev pub or_insert : K → V → HashMap K V → HashMap K V
  or_insert k d m = if contains_key k m then m else insert k d m

  -- The value behind `entry(k).or_insert(d)`.
  abbrev pub lookup_or : K → V → HashMap K V → V
  lookup_or k d m = elim (lookup k m) [ none ↦ d | some v ↦ v ]

  -- No key stands twice.
  abbrev pub IsMap : HashMap K V → Type 0
  IsMap [] = Unit
  IsMap ((k, v) ∷ m) = (contains_key k m ≡ false) × IsMap m

  pub lookup-insert :
      (k j : K) (v : V) (m : HashMap K V)
      → lookup j (insert k v m) ≡ (if k == j then some v else lookup j m)
  lookup-insert k j v [] = refl
  lookup-insert k j v ((i, w) ∷ m) =
      ground (arith, e.beq_iff k j, e.beq_iff i k, e.beq_iff i j, lookup-insert k j v m)

  pub contains_key-insert :
      (j k : K) (v : V) (m : HashMap K V)
      → contains_key j (insert k v m) ≡ ((k == j) || contains_key j m)
  contains_key-insert j k v m = ground (arith, lookup-insert k j v m)

  pub insert-IsMap : (k : K) (v : V) (m : HashMap K V) → IsMap m → IsMap (insert k v m)
  insert-IsMap k v [] is_map = (refl, tt)
  insert-IsMap k v ((j, w) ∷ m) is_map = elim (Bool-cases (j == k)) [
    | inl same ↦ rw same is_map
    | inr other ↦ rw other (
      ground (arith, contains_key-insert j k v m, e.beq_iff k j, e.beq_iff j k),
      insert-IsMap k v m is_map.1,
    )
  ]
