-- ===== src/Core/Entry/Authorities.antt =====
-- `receive_authorities_list` of src/objects.rs: the authorities of the next height.
use bft_rs.Prelude.{
  ℕ, ◌+◌, ◌≡◌, ◌≢◌, refl, ◌∙◌, false, ◌||◌, List, [], ◌∷◌, arith, Bool-cases, inl, inr, list_beq,
  list_beq_iff,
}
use bft_rs.Objects.{Address, Node, AuthorityManage}
use bft_rs.Objects.Authority.{
  node_leb, insert_node, sort_nodes, nodes_beq, nodes_beq_iff, receive_authorities_list,
}
use bft_rs.Weight.Quorum.{total_of}
use bft_rs.Checks.{is_authority}
use bft_rs.Core.Commits.Tally.{HasDistinct}

insert-listed :
    (n : Node) (ns : List Node) (a : Address)
    → is_authority (insert_node n ns) a ≡ (list_beq n.address a || is_authority ns a)
insert-listed n [] a = ground arith
insert-listed n (m ∷ ns) a = ground (arith, insert-listed n ns a)

insert-total :
    (n : Node) (ns : List Node) → total_of (insert_node n ns) ≡ n.vote_weight + total_of ns
insert-total n [] = refl
insert-total n (m ∷ ns) = ground (arith, insert-total n ns)

insert-HasDistinct :
    (n : Node) (ns : List Node)
    → is_authority ns n.address ≡ false
    → HasDistinct ns
    → HasDistinct (insert_node n ns)
insert-HasDistinct n [] fresh distinct = (refl, tt)
insert-HasDistinct n (m ∷ ns) fresh distinct = elim (Bool-cases (node_leb n m)) [
  | inl first ↦ rw first (fresh, distinct)
  | inr later ↦ rw later (
    ground (
      arith,
      insert-listed n ns m.address,
      list_beq_iff n.address m.address,
      list_beq_iff m.address n.address,
    ),
    insert-HasDistinct n ns (ground arith) distinct.1,
  )
]

sort-listed : (ns : List Node) (a : Address) → is_authority (sort_nodes ns) a ≡ is_authority ns a
unfolding sort_nodes
sort-listed [] a = refl
sort-listed (n ∷ ns) a = insert-listed n (sort_nodes ns) a ∙ rw (sort-listed ns a) refl

pub sort-total : (ns : List Node) → total_of (sort_nodes ns) ≡ total_of ns
unfolding sort_nodes
sort-total [] = refl
sort-total (n ∷ ns) = insert-total n (sort_nodes ns) ∙ rw (sort-total ns) refl

pub sort-HasDistinct : (ns : List Node) → HasDistinct ns → HasDistinct (sort_nodes ns)
unfolding sort_nodes
sort-HasDistinct [] distinct = tt
sort-HasDistinct (n ∷ ns) distinct =
    insert-HasDistinct n (sort_nodes ns) (sort-listed ns n.address ∙ distinct.0)
      (sort-HasDistinct ns distinct.1)

-- The authorities are the received ones, sorted, and the old ones are those of the status' height or
-- of the former one.
pub receive-sorted :
    (m : AuthorityManage) (height : ℕ) (ns : List Node)
    → (receive_authorities_list m height ns).authorities ≡ sort_nodes ns
unfolding receive_authorities_list
receive-sorted m height ns = elim (Bool-cases (nodes_beq m.authorities (sort_nodes ns))) [
  | inl same ↦ rw same ((nodes_beq_iff m.authorities (sort_nodes ns)).0 same)
  | inr other ↦ rw other refl
]

pub receive-not_old :
    (m : AuthorityManage) (height : ℕ) (ns : List Node) (next : ℕ)
    → height ≢ next
    → m.authority_h_old ≢ next
    → (receive_authorities_list m height ns).authority_h_old ≢ next
unfolding receive_authorities_list
receive-not_old m height ns next new old =
    elim (Bool-cases (nodes_beq m.authorities (sort_nodes ns))) [
      | inl same ↦ rw same old
      | inr other ↦ rw other new
    ]
