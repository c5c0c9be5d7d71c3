-- ===== src/Codec/RoundTrip.antt =====
-- About encoding and decoding: src/lib.rs and src/objects.rs.
pub mod Proofs
pub mod Messages
use bft_rs.Prelude.{
  ℕ, ◌<◌, ◌^◌, ◌≡◌, refl, List, [], ◌∷◌, map, ok, arith, IsU64, ap, Option, none, some, All,
}
use bft_rs.Objects.{Vote, SignedVote, Feed, Node, Status}
use bft_rs.Objects.Kinds.{vote_type_from_u8, vote_type_to_u8}
use bft_rs.Env.{Env, RlpLaws, Item}
use bft_rs.Codec.{
  vote_item, item_vote, signed_vote_item, item_signed_vote, feed_item, item_feed, node_item,
  item_node, status_item, item_status,
}
use bft_rs.Codec.Items.{
  bytes_item, item_bytes, from_list, to_list, decode_all, u64_item, u64_of_option,
}
use mathlib.Core.Option

vote_type_back : (v : Vote) → vote_type_from_u8 (vote_type_to_u8 v.vote_type) ≡ ok v.vote_type
unfolding vote_type_from_u8
vote_type_back v = ground arith

pub to_list-from_list : (xs : List Item) → to_list (from_list xs) ≡ xs
to_list-from_list [] = refl
to_list-from_list (x ∷ xs) = ap (λ ys. x ∷ ys) (to_list-from_list xs)

-- An optional 64-bit word.
abbrev pub IsWord : Option ℕ → Type 0
IsWord none = Unit
IsWord (some n) = IsU64 n

module _ ⦃env : Env⦄ (laws : RlpLaws env) where
  -- A vote whose height and round are 64-bit words is decoded from its item.
  item_vote-vote_item : (v : Vote) → IsU64 v.height → IsU64 v.round → item_vote (vote_item v) ≡ ok v
  unfolding item_vote vote_item bytes_item item_bytes
  item_vote-vote_item v h r = ground (
    arith,
    vote_type_back v,
    laws.uint_back 8 (vote_type_to_u8 v.vote_type),
    laws.uint_back 64 v.height,
    laws.uint_back 64 v.round,
  )

  -- A signed vote whose vote has 64-bit words for height and round is decoded from its item.
  pub item_signed_vote-signed_vote_item :
      (v : SignedVote)
      → IsU64 v.vote.height
      → IsU64 v.vote.round
      → item_signed_vote (signed_vote_item v) ≡ ok v
  unfolding item_signed_vote signed_vote_item bytes_item item_bytes
  item_signed_vote-signed_vote_item v h r = ground (arith, item_vote-vote_item v.vote h r)

  -- A feed whose height is a 64-bit word is decoded from its item.
  item_feed-feed_item : (f : Feed) → IsU64 f.height → item_feed (feed_item f) ≡ ok f
  unfolding item_feed feed_item bytes_item item_bytes
  item_feed-feed_item f h = ground (arith, laws.uint_back 64 f.height)

  -- A node whose weights are 32-bit words is decoded from its item.
  pub item_node-node_item :
      (n : Node)
      → n.proposal_weight < 2 ^ 32
      → n.vote_weight < 2 ^ 32
      → item_node (node_item n) ≡ ok n
  unfolding item_node node_item bytes_item item_bytes
  item_node-node_item n p v =
      ground (arith, laws.uint_back 32 n.proposal_weight, laws.uint_back 32 n.vote_weight)

  -- A node's weights are 32-bit words.
  abbrev pub NodeFits : Node → Type 0
  NodeFits n = (n.proposal_weight < 2 ^ 32) × (n.vote_weight < 2 ^ 32)

  nodes_back : (ns : List Node) → All NodeFits ns → decode_all item_node (map node_item ns) ≡ ok ns
  nodes_back [] all = refl
  nodes_back (n ∷ ns) all =
      ground (arith, item_node-node_item n all.0.0 all.0.1, nodes_back ns all.1)

  pub option_word_back : (o : Option ℕ) → IsWord o → u64_of_option (Option.map u64_item o) ≡ ok o
  option_word_back none h = refl
  option_word_back (some n) h = ground (arith, laws.uint_back 64 n h)

  -- A status is decoded from its item, if its height and its interval, where it has one, are 64-bit
  -- words and the weights of its nodes are 32-bit words.
  item_status-status_item :
      (s : Status)
      → IsU64 s.height
      → IsWord s.interval
      → All NodeFits s.authority_list
      → item_status (status_item s) ≡ ok s
  unfolding item_status status_item
  item_status-status_item s h i all = ground (
    arith,
    laws.uint_back 64 s.height,
    laws.option_back (Option.map u64_item s.interval),
    option_word_back s.interval i,
    laws.items_back (from_list (map node_item s.authority_list)),
    to_list-from_list (map node_item s.authority_list),
    nodes_back s.authority_list all,
  )
