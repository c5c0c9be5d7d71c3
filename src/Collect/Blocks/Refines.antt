-- ===== src/Collect/Blocks/Refines.antt =====
-- `BlockCollector::add` of src/collectors.rs as an update of the map that `get_block` reads.
use bft_rs.Prelude.{
  ℕ, ◌<◌, ◌≡◌, ◌≢◌, refl, ◌∙◌, ap, false, ◌&&◌, not, is_some, Option, none, some, [], ok, arith,
  nat_beq, nat_beq_iff, Bool-cases, Option-cases, inl, inr, lookup, lookup-insert, list_eq,
  list_beq, list_beq_iff,
}
use bft_rs.Objects.{Hash, Block}
use bft_rs.Env.{Env, LruLaws, lru_peek}
use bft_rs.Collect.Cache.{KeptOrLost, key-cases, Updates, insert-Updates, write-Updates}
use bft_rs.Collect.Blocks.{BlockSet, BlockCollector, add_set, add, get_block}

-- The value that an `add` leaves: the first one stays.
abbrev pub first_of : {A : Type 0} → Option A → A → A
first_of none new = new
first_of (some old) new = old

add_set_self :
    (hash : Hash) (block : Block) (s : BlockSet)
    → ((add_set hash block s).0 ≡ not (is_some (lookup hash s)))
      × (lookup hash (add_set hash block s).1 ≡ some (first_of (lookup hash s) block))
unfolding add_set
add_set_self hash block s = elim (Option-cases (lookup hash s)) [
  | inl e ↦ rw e (refl, ground (arith, lookup-insert hash hash block s, list_beq_iff hash hash))
  | inr (b, e) ↦ rw e (refl, e)
]

add_set_other :
    (hash hash' : Hash) (block : Block) (s : BlockSet)
    → list_beq hash hash' ≡ false
    → lookup hash' (add_set hash block s).1 ≡ lookup hash' s
unfolding add_set
add_set_other hash hash' block s other = elim (Option-cases (lookup hash s)) [
  | inl e ↦ rw e (lookup-insert hash hash' block s ∙ rw other refl)
  | inr (b, e) ↦ rw e refl
]

module _ ⦃env : Env⦄ where
  open env use {lru_get_mut}

  abbrev view_set : Hash → Option BlockSet → Option Block
  view_set hash none = none
  view_set hash (some s) = lookup hash s

  -- The block of a height and a hash.
  abbrev view : ℕ → Hash → BlockCollector → Option Block
  view height hash c = view_set hash (lru_peek height c.blocks)

  get_block-view :
      (height : ℕ) (hash : Hash) (c : BlockCollector)
      → (get_block height hash c).0 ≡ view height hash c
  unfolding get_block
  get_block-view height hash c = elim (Option-cases (lru_get_mut height c.blocks)) [
    | inl e ↦ rw (get_block, e) refl
    | inr (r, e) ↦ rw (get_block, e) refl
  ]

  abbrev or_empty : Option BlockSet → BlockSet
  or_empty none = []
  or_empty (some s) = s

  viewed : (hash : Hash) (o : Option BlockSet) → view_set hash o ≡ lookup hash (or_empty o)
  viewed hash none = refl
  viewed hash (some s) = refl

module _ ⦃env : Env⦄ (laws : LruLaws env) where
  -- `add` puts the set with the block in place of the set that is there, or of an empty one.
  add-Updates :
      (height : ℕ) (hash : Hash) (block : Block) (c : BlockCollector)
      → 0 < laws.capacity c.blocks
      → let s = or_empty (lru_peek height c.blocks) in
        ((add height hash block c).0 ≡ ok (add_set hash block s).0)
        × Updates laws height (add_set hash block s).1 c.blocks (add height hash block c).1.blocks
  unfolding add add_set
  add-Updates height hash block c room = elim (key-cases laws height c.blocks) [
    | inl (e, absent) ↦ rw (e, absent) (refl, insert-Updates laws height _ c.blocks room)
    | inr (r, e, present) ↦ rw (e, present) (refl, write-Updates laws height _ c.blocks r e)
  ]

  -- `BlockCollector::add` fails never, and says whether `get_block` gave no block of this height and
  -- hash; from then on `get_block` gives the block that it gave before, or else the new one. What it
  -- gives for another height or hash is as before or forgotten, and the cache keeps its capacity,
  -- which is not 0.
  pub add-get_block :
      (height : ℕ) (hash : Hash) (block : Block) (c : BlockCollector)
      → 0 < laws.capacity c.blocks
      → let c' = (add height hash block c).1 in
        let before = (get_block height hash c).0 in
        ((add height hash block c).0 ≡ ok (not (is_some before)))
        × ((get_block height hash c').0 ≡ some (first_of before block))
        × ((height' : ℕ) (hash' : Hash)
            → (nat_beq height height' && list_beq hash hash') ≡ false
            → KeptOrLost (get_block height' hash' c).0 (get_block height' hash' c').0)
        × (laws.capacity c'.blocks ≡ laws.capacity c.blocks)
  add-get_block height hash block c room =
      let (result, u) = add-Updates height hash block c room in
      let s = or_empty (lru_peek height c.blocks) in
      let there : view height hash c ≡ lookup hash s = viewed hash (lru_peek height c.blocks) in
      let (fresh, entry) = add_set_self hash block s in
      (
        rw (get_block-view height hash c, there) (result ∙ ap ok fresh),
        rw
            (
              get_block-view height hash c,
              get_block-view height hash (add height hash block c).1,
              there,
              u.self,
            )
            entry,
        (λ height' hash' differ.
            rw
              (
                get_block-view height' hash' c,
                get_block-view height' hash' (add height hash block c).1,
              )
              (elim (Bool-cases (nat_beq height height')) [
                | inl here ↦
                    let at : height ≡ height' = (nat_beq_iff height height').0 here in
                    inl (
                      rw (← at, u.self, viewed hash' (lru_peek height c.blocks))
                        (add_set_other hash hash' block s (rw here at differ)))
                | inr away ↦
                    let ne : height ≢ height' = λ at. ground arith in
                    elim (u.other height' ne) [
                      | inl kept ↦ inl (ap (view_set hash') kept)
                      | inr lost ↦ inr (ap (view_set hash') lost)
                    ]
              ])),
        u.capacity,
      )
