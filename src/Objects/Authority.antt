-- ===== src/Objects/Authority.antt =====
-- `Node` (src/lib.rs) and `AuthorityManage` (src/objects.rs).
use bft_rs.Prelude.{
  ℕ, ◌≡◌, Bool, true, false, ◌&&◌, List, [], ◌∷◌, ltb, Eq, ◌==◌, nat_eq, list_eq, if◌then◌else◌,
  arith, ◌↔◌, nat_beq, list_beq, list_beq_iff,
}

abbrev pub Bytes : Type 0
Bytes = List ℕ

pub record Node : Type 0 where
  pub address : Bytes
  pub proposal_weight : ℕ
  pub vote_weight : ℕ

-- `Node::new`
abbrev pub node_new : Bytes → ℕ → ℕ → Node
node_new address proposal_weight vote_weight = record {
  address = address;
  proposal_weight = proposal_weight;
  vote_weight = vote_weight;
}

-- `Node::set_address`
abbrev pub set_address : Bytes → Node
set_address address = node_new address 1 1

abbrev pub node_beq : Node → Node → Bool
node_beq a b =
    list_beq a.address b.address
    && nat_beq a.proposal_weight b.proposal_weight
    && nat_beq a.vote_weight b.vote_weight

pub node_beq_iff : (a b : Node) → (node_beq a b ≡ true) ↔ (a ≡ b)
node_beq_iff a b = ground (arith, list_beq_iff a.address b.address)

instance abbrev pub node_eq : Eq Node
node_eq = record { beq = node_beq; beq_iff = node_beq_iff }

abbrev pub nodes_beq : List Node → List Node → Bool
nodes_beq [] [] = true
nodes_beq [] (b ∷ bs) = false
nodes_beq (a ∷ as') [] = false
nodes_beq (a ∷ as') (b ∷ bs) = node_beq a b && nodes_beq as' bs

pub nodes_beq_iff : (xs ys : List Node) → (nodes_beq xs ys ≡ true) ↔ (xs ≡ ys)
nodes_beq_iff [] [] = ground arith
nodes_beq_iff [] (b ∷ bs) = ground arith
nodes_beq_iff (a ∷ xs) [] = ground arith
nodes_beq_iff (a ∷ xs) (b ∷ bs) = ground (arith, node_beq_iff a b, nodes_beq_iff xs bs)

-- The derived order of `Vec<u8>`: lexicographic.
abbrev pub bytes_leb : Bytes → Bytes → Bool
bytes_leb [] ys = true
bytes_leb (x ∷ xs) [] = false
bytes_leb (x ∷ xs) (y ∷ ys) =
    let rest = bytes_leb xs ys in if ltb x y then true else if ltb y x then false else rest

-- The derived order of `Node`: its fields in turn.
abbrev pub node_leb : Node → Node → Bool
node_leb a b =
    if a.address == b.address
    then (if a.proposal_weight == b.proposal_weight
        then (if ltb b.vote_weight a.vote_weight then false else true)
        else ltb a.proposal_weight b.proposal_weight)
    else bytes_leb a.address b.address

-- `Vec::sort`, which is stable.
abbrev pub insert_node : Node → List Node → List Node
insert_node a [] = a ∷ []
insert_node a (b ∷ bs) = if node_leb a b then a ∷ b ∷ bs else b ∷ insert_node a bs

unfoldable pub sort_nodes : List Node → List Node
sort_nodes [] = []
sort_nodes (a ∷ xs) = insert_node a (sort_nodes xs)

pub record AuthorityManage : Type 0 where
  pub authorities : List Node
  pub authorities_old : List Node
  pub authority_h_old : ℕ

-- `AuthorityManage::new`
abbrev pub authority_manage_new : AuthorityManage
authority_manage_new = record { authorities = []; authorities_old = []; authority_h_old = 0 }

unfoldable pub receive_authorities_list : AuthorityManage → ℕ → List Node → AuthorityManage
receive_authorities_list m height list =
    let sorted = sort_nodes list in
    if nodes_beq m.authorities sorted
    then m
    else record { authorities = sorted; authorities_old = m.authorities; authority_h_old = height }
