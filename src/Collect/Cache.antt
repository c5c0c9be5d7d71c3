-- ===== src/Collect/Cache.antt =====
-- The caches behind the collectors of src/collectors.rs: what a cache holds after an entry was
-- written or inserted.
use bft_rs.Prelude.{
  ℕ, ◌<◌, ◌≡◌, ◌≢◌, ◌⊎◌, refl, sym, ◌∙◌, true, false, Option, none, some, arith, nat_beq,
  nat_beq_iff, Bool-cases, Option-cases, inl, inr,
}
use bft_rs.Env.{Env, LruLaws, lru_peek}

-- An entry that a cache may have forgotten.
abbrev pub KeptOrLost : {A : Type 0} → Option A → Option A → Type 0
KeptOrLost before after = (after ≡ before) ⊎ (after ≡ none)

module _ ⦃env : Env⦄ (laws : LruLaws env) where
  open env use {LruCache, lru_get_mut, lru_contains_key, lru_insert}

  -- A key is in a cache, with its reference, or it is not.
  pub key-cases :
      {V : Type 0} (k : ℕ) (c : LruCache V)
      → ((lru_get_mut k c ≡ none) × (lru_contains_key k c ≡ false))
        ⊎ ((r : V × (V → LruCache V)) × (lru_get_mut k c ≡ some r) × (lru_contains_key k c ≡ true))
  key-cases k c = elim (Option-cases (lru_get_mut k c)) [
    | inl e ↦ inl (e, laws.contains k c ∙ rw e refl)
    | inr (r, e) ↦ inr (r, e, laws.contains k c ∙ rw e refl)
  ]

  -- A value that is written back is read as before.
  pub write_back :
      {V : Type 0} (k j : ℕ) (c : LruCache V) (r : V × (V → LruCache V))
      → lru_get_mut k c ≡ some r
      → lru_peek j (r.1 r.0) ≡ lru_peek j c
  write_back k j c r e = elim (Bool-cases (nat_beq k j)) [
    | inl here ↦
        let at : k ≡ j = (nat_beq_iff k j).0 here in
        let before : lru_peek j c ≡ some r.0 = rw (← at, e) refl in
        laws.peek_write k j c r r.0 e ∙ rw here (sym before)
    | inr there ↦ laws.peek_write k j c r r.0 e ∙ rw there refl
  ]

  -- A cache with a new value at a key, in which other entries may be forgotten.
  pub record Updates {V : Type 0} (k : ℕ) (v : V) (c c' : LruCache V) : Type 0 where
    pub self : lru_peek k c' ≡ some v
    pub other : (j : ℕ) → k ≢ j → KeptOrLost (lru_peek j c) (lru_peek j c')
    pub capacity : laws.capacity c' ≡ laws.capacity c

  pub insert-Updates :
      {V : Type 0} (k : ℕ) (v : V) (c : LruCache V)
      → 0 < laws.capacity c
      → Updates k v c (lru_insert k v c)
  insert-Updates k v c room = record {
    self = laws.peek_insert_self k v c room;
    other = λ j ne. laws.peek_insert_other k j v c ne;
    capacity = laws.capacity_insert k v c;
  }

  pub write-Updates :
      {V : Type 0} (k : ℕ) (v : V) (c : LruCache V) (r : V × (V → LruCache V))
      → lru_get_mut k c ≡ some r
      → Updates k v c (r.1 v)
  write-Updates k v c r e = record {
    self = laws.peek_write k k c r v e ∙ ground arith;
    other = λ j ne. inl (laws.peek_write k j c r v e ∙ ground (arith, nat_beq_iff k j));
    capacity = laws.capacity_write k c r v e;
  }

  -- The entries that another key or the new value hold satisfy what the old ones and the new value do.
  pub Updates-all :
      {V : Type 0} (P : V → Type 0) {k : ℕ} {v : V} {c c' : LruCache V}
      → Updates k v c c'
      → P v
      → ((j : ℕ) (w : V) → lru_peek j c ≡ some w → P w)
      → (j : ℕ) (w : V) → lru_peek j c' ≡ some w
      → P w
  Updates-all P {k} {v} {c} {c'} u new old j w found = elim (Bool-cases (nat_beq k j)) [
    | inl here ↦
        let at : k ≡ j = (nat_beq_iff k j).0 here in
        let e : v ≡ w = ground (arith, u.self, found) in rw (← e) new
    | inr there ↦
        let ne : k ≢ j = λ at. ground arith in
        elim (u.other j ne) [
          | inl kept ↦ old j w (sym kept ∙ found)
          | inr lost ↦ absurd (ground (arith, lost, found))
        ]
  ]
