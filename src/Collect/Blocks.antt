-- ===== src/Collect/Blocks.antt =====
-- `BlockCollector` and `BlockSet` of src/collectors.rs.
pub mod Refines
use bft_rs.Prelude.{
  ℕ, Bool, true, false, Option, none, some, [], HashMap, lookup, contains_key, insert, list_eq,
  BftResult, ok, if◌then◌else◌,
}
use bft_rs.Objects.{Hash, Block}
use bft_rs.Env.{Env}
use bft_rs.Collect.Votes.{cache_n}

abbrev pub BlockSet : Type 0
BlockSet = HashMap Hash Block

-- `BlockSet::add`: a block under a known hash is not replaced.
unfoldable pub add_set : Hash → Block → BlockSet → Bool × BlockSet
add_set hash block s = if contains_key hash s then (false, s) else (true, insert hash block s)

module _ ⦃env : Env⦄ where
  open env use {LruCache, lru_new, lru_contains_key, lru_get_mut, lru_insert}

  pub record BlockCollector : Type 0 where
    pub blocks : LruCache BlockSet

  -- `BlockCollector::new`
  abbrev pub new : BlockCollector
  new = record { blocks = lru_new cache_n }

  -- `BlockCollector::add`
  unfoldable pub add : ℕ → Hash → Block → BlockCollector → BftResult Bool × BlockCollector
  unfolding add_set
  add height hash block c =
      let (_, block_set) = add_set hash block [] in
      if lru_contains_key height c.blocks
      then elim (lru_get_mut height c.blocks) [
        | none ↦ (BftResult.panic, c)
        | some (s, put) ↦
            let (saved, s') = add_set hash block s in (ok saved, record { blocks = put s' })
      ]
      else (ok true, record { blocks = lru_insert height block_set c.blocks })

  -- `BlockCollector::get_block`
  unfoldable pub get_block : ℕ → Hash → BlockCollector → Option Block × BlockCollector
  get_block height hash c = elim (lru_get_mut height c.blocks) [
    | none ↦ (none, c)
    | some (s, put) ↦ (lookup hash s, record { blocks = put s })
  ]
