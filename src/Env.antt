-- ===== src/Env.antt =====
-- What the program calls and this repository does not hold: the crates `rlp`, `lru_cache` and
-- `rand`, and the node's own `BftSupport` (the trait is in src/lib.rs), with the laws that
-- theorems assume of the crates. A `BftSupport` call is a function of its arguments.
use bft_rs.Prelude.{
  ℕ, ◌<◌, ◌^◌, ◌≡◌, ◌≢◌, ◌⊎◌, Bool, Option, none, some, List, if◌then◌else◌, nat_beq, is_some,
}
use bft_rs.Objects.{Bytes, Address, Hash, Signature, Block, VerifyResp}
use mathlib.Core.Option

-- An RLP value: a byte string or a list.
mutual
  pub data Item : Type 0 where
    str : Bytes → Item
    list : Items → Item

  pub data Items : Type 0 where
    nil : Items
    cons : Item → Items → Items

pub record Env : Type 1 where
  -- the features of the build
  pub verify_req : Bool
  pub machine_gun : Bool
  -- rlp: `rlp::encode` after an item was appended, `Rlp::new`, and its own `Encodable` and
  -- `Decodable` for unsigned integers of so many bits, `bool` and `Option`
  pub rlp_encode : Item → Bytes
  pub rlp_decode : Bytes → Option Item
  pub uint_item : ℕ → Item
  pub item_uint : ℕ → Item → Option ℕ
  pub bool_item : Bool → Item
  pub item_bool : Item → Option Bool
  pub option_item : Option Item → Item
  pub item_option : Item → Option (Option Item)
  -- the items that `Rlp::iter` yields
  pub rlp_items : Item → Items
  -- lru_cache, with keys `u64`. The reference that `get_mut` gives is the value and a writer.
  pub LruCache : Type 0 → Type 0
  pub lru_new : {V : Type 0} → ℕ → LruCache V
  pub lru_contains_key : {V : Type 0} → ℕ → LruCache V → Bool
  pub lru_get_mut : {V : Type 0} → ℕ → LruCache V → Option (V × (V → LruCache V))
  pub lru_insert : {V : Type 0} → ℕ → V → LruCache V → LruCache V
  pub lru_remove : {V : Type 0} → ℕ → LruCache V → Option V × LruCache V
  -- the order in which `for (_, v) in cache.iter()` yields the values
  pub lru_values : {V : Type 0} → LruCache V → List V
  -- rand: the bytes of the `n`-th call of `get_rand_vec`, of the given length
  pub rand_vec : ℕ → ℕ → Bytes
  -- BftSupport; `none` is an error
  pub check_block : Block → Hash → Hash → ℕ × ℕ → Bool → Address → Option VerifyResp
  pub sign : Hash → Option Signature
  pub check_sig : Signature → Hash → Option Address
  pub crypt_hash : Bytes → Hash

-- `rlp` reads back what it wrote.
pub record RlpLaws (env : Env) : Type 0 where
  pub decode-encode : (t : Item) → env.rlp_decode (env.rlp_encode t) ≡ some t
  pub uint_back : (bits n : ℕ) → n < 2 ^ bits → env.item_uint bits (env.uint_item n) ≡ some n
  pub bool_back : (b : Bool) → env.item_bool (env.bool_item b) ≡ some b
  pub option_back : (o : Option Item) → env.item_option (env.option_item o) ≡ some o
  pub items_back : (xs : Items) → env.rlp_items (list xs) ≡ xs

module _ ⦃env : Env⦄ where
  open env use {LruCache, lru_get_mut}

  -- The value that a cache holds at a key.
  abbrev pub lru_peek : {V : Type 0} → ℕ → LruCache V → Option V
  lru_peek k c = Option.map (λ r. r.0) (lru_get_mut k c)

-- `lru_cache` is a map in which an insertion may drop other keys, to stay within the capacity.
pub record LruLaws (env : Env) : Type 1 where
  pub capacity : {V : Type 0} → env.LruCache V → ℕ
  pub capacity_new : {V : Type 0} (n : ℕ) → capacity (env.lru_new {V = V} n) ≡ n
  pub capacity_insert :
      {V : Type 0} (k : ℕ) (v : V) (c : env.LruCache V)
      → capacity (env.lru_insert k v c) ≡ capacity c
  pub capacity_write :
      {V : Type 0} (k : ℕ) (c : env.LruCache V) (r : V × (V → env.LruCache V)) (v : V)
      → env.lru_get_mut k c ≡ some r
      → capacity (r.1 v) ≡ capacity c
  pub capacity_remove :
      {V : Type 0} (k : ℕ) (c : env.LruCache V) → capacity (env.lru_remove k c).1 ≡ capacity c
  pub peek_new : {V : Type 0} (k n : ℕ) → lru_peek ⦃env = env⦄ k (env.lru_new {V = V} n) ≡ none
  pub contains :
      {V : Type 0} (k : ℕ) (c : env.LruCache V)
      → env.lru_contains_key k c ≡ is_some (lru_peek ⦃env = env⦄ k c)
  pub peek_write :
      {V : Type 0} (k j : ℕ) (c : env.LruCache V) (r : V × (V → env.LruCache V)) (v : V)
      → env.lru_get_mut k c ≡ some r
      → lru_peek ⦃env = env⦄ j (r.1 v) ≡ (if nat_beq k j then some v else lru_peek ⦃env = env⦄ j c)
  pub peek_insert_self :
      {V : Type 0} (k : ℕ) (v : V) (c : env.LruCache V)
      → 0 < capacity c
      → lru_peek ⦃env = env⦄ k (env.lru_insert k v c) ≡ some v
  pub peek_insert_other :
      {V : Type 0} (k j : ℕ) (v : V) (c : env.LruCache V)
      → k ≢ j
      → (lru_peek ⦃env = env⦄ j (env.lru_insert k v c) ≡ lru_peek ⦃env = env⦄ j c)
        ⊎ (lru_peek ⦃env = env⦄ j (env.lru_insert k v c) ≡ none)
  pub removed :
      {V : Type 0} (k : ℕ) (c : env.LruCache V) → (env.lru_remove k c).0 ≡ lru_peek ⦃env = env⦄ k c
  pub peek_remove :
      {V : Type 0} (k j : ℕ) (c : env.LruCache V)
      → lru_peek ⦃env = env⦄ j (env.lru_remove k c).1
        ≡ (if nat_beq k j then none else lru_peek ⦃env = env⦄ j c)
