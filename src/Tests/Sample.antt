-- ===== src/Tests/Sample.antt =====
-- An environment in which the external code is a concrete function, and its laws.
pub mod Rlp
pub mod Lru
use bft_rs.Prelude.{
  ℕ, zero, suc, ◌+◌, Bool, true, false, Option, none, some, List, [], ◌∷◌, refl, sym, ap, ◌∙◌,
  is_some,
}
use bft_rs.Objects.{Bytes, Hash, Node, VoteType, SignedVote, Proof}
use bft_rs.Objects.Authority.{set_address}
use bft_rs.Machine.State.{Bft, bft_new}
use bft_rs.Env.{Env, Item, RlpLaws, LruLaws}
use Rlp.{
  encode, decode, uint_item, item_uint, bool_item, item_bool, option_item, item_option, items_of,
  decode-encode, uint_back, bool_back, option_back,
}
use Lru.{
  Cache, new, has, get_mut, insert, remove, values, view, writes, inserts_self, inserts_other,
  peek-drop_key,
}

-- A signature names its signer by its first byte, and signs everything; the own key is 1.
abbrev pub signer : Bytes → Option Bytes
signer [] = none
signer (b ∷ bs) = some (b ∷ [])

instance abbrev pub sample : Env
sample = record {
  verify_req = false;
  machine_gun = false;
  rlp_encode = encode;
  rlp_decode = decode;
  uint_item = uint_item;
  item_uint = item_uint;
  bool_item = bool_item;
  item_bool = item_bool;
  option_item = option_item;
  item_option = item_option;
  rlp_items = items_of;
  LruCache = Cache;
  lru_new = new;
  lru_contains_key = has;
  lru_get_mut = get_mut;
  lru_insert = insert;
  lru_remove = remove;
  lru_values = values;
  rand_vec = λ n len. n ∷ [];
  check_block = λ b h p hr l a. some (record { is_pass = true; round = hr.1 });
  sign = λ h. some (1 ∷ []);
  check_sig = λ sig h. signer sig;
  crypt_hash = λ b. b;
}

pub sample-RlpLaws : RlpLaws sample
sample-RlpLaws = record {
  decode-encode = decode-encode;
  uint_back = uint_back;
  bool_back = bool_back;
  option_back = option_back;
  items_back = λ xs. refl;
}

pub sample-LruLaws : LruLaws sample
sample-LruLaws = record {
  capacity = λ c. c.0;
  capacity_new = λ n. refl;
  capacity_insert = λ k v c. refl;
  capacity_write = λ k c r v e. (writes k c 0 r v e).1;
  capacity_remove = λ k c. refl;
  peek_new = λ k n. refl;
  contains = λ k c. ap is_some (sym (view k c k));
  peek_write = λ k j c r v e. rw (view k c j) (view j (r.1 v) j ∙ (writes k c j r v e).0);
  peek_insert_self = λ k v c h. view k (insert k v c) k ∙ inserts_self k c v h;
  peek_insert_other =
      λ k j v c ne. rw (view k (insert k v c) j, view k c j) (inserts_other k c j v ne);
  removed = λ k c. sym (view k c k);
  peek_remove = λ k j c. rw (view k (remove k c).1 j, view k c j) (peek-drop_key k j c.1);
}

abbrev node : ℕ → Node
node a = set_address (a ∷ [])

-- Four authorities of weight 1.
abbrev pub nodes : List Node
nodes = node 1 ∷ node 2 ∷ node 3 ∷ node 4 ∷ []

-- A signed vote at height 5, round 0.
abbrev pub vote_by : VoteType → ℕ → SignedVote
vote_by vote_type a = record {
  vote = record {
    vote_type = vote_type;
    height = 5;
    round = 0;
    block_hash = 7 ∷ [];
    voter = a ∷ [];
  };
  signature = a ∷ [];
}

abbrev pub prevote_by : ℕ → SignedVote
prevote_by = vote_by VoteType.prevote

-- A proof of height 5 for a block, signed by the authorities 1, 2 and 3.
abbrev pub proof_for : Hash → Proof
proof_for hash = record {
  height = 5;
  round = 0;
  block_hash = hash;
  precommit_votes = ((1 ∷ []), (1 ∷ [])) ∷ ((2 ∷ []), (2 ∷ [])) ∷ ((3 ∷ []), (3 ∷ [])) ∷ [];
}

-- The node 1 at height 5 under these authorities.
abbrev pub at_height_5 : Bft
at_height_5 =
    record (bft_new (1 ∷ []) 0
      (record { files = []; index = none; height_fs = []; current_height = 5 })) {
        height = 5;
        consensus_power = true;
        authority_manage = record {
          authorities = nodes;
          authorities_old = [];
          authority_h_old = 0;
        };
      }
