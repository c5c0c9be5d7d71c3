-- ===== src/Core/Commits/Tally.antt =====
-- A `VoteSet` of src/collectors.rs whose counters are the weights of its voters, and whose votes
-- are signed votes of one type, height and round.
use bft_rs.Prelude.{
  ℕ, ◌+◌, ◌^◌, ◌<◌, ◌≡◌, refl, ap, sym, ◌∙◌, Bool, true, false, ◌&&◌, ◌||◌, some, List, [], ◌∷◌,
  HashMap, All, any, arith, add64, insert, lookup_or, contains_key, find, list_beq, list_beq_iff,
  list_eq, lookup-insert, IsMap, insert-IsMap, Bool-cases, inl, inr, if◌then◌else◌, ◌==◌,
}
use bft_rs.Objects.{Address, Hash, Node, VoteType, SignedVote}
use bft_rs.Env.{Env}
use bft_rs.Weight.Quorum.{weight_of, total_of, weight_of-le_total}
use bft_rs.Checks.{vote_hash, is_authority}
use bft_rs.Collect.VoteSet.{VoteSet, new, add, polc_of}

-- No two nodes have one address.
abbrev pub HasDistinct : List Node → Type 0
HasDistinct [] = Unit
HasDistinct (n ∷ ns) = (is_authority ns n.address ≡ false) × HasDistinct ns

-- One of the votes is that of the address.
abbrev pub voted : List SignedVote → Address → Bool
voted vs a = any (λ (v : SignedVote). v.vote.voter == a) vs

pub weight_of-ext :
    (p q : Address → Bool) (ns : List Node)
    → ((a : Address) → p a ≡ q a)
    → weight_of (λ n. p n.address) ns ≡ weight_of (λ n. q n.address) ns
weight_of-ext p q [] same = refl
weight_of-ext p q (n ∷ ns) same = ground (arith, same n.address, weight_of-ext p q ns same)

weight_of-none : (ns : List Node) → weight_of (λ n. false) ns ≡ 0
weight_of-none [] = refl
weight_of-none (n ∷ ns) = ground (arith, weight_of-none ns)

-- An address that no node has adds nothing.
weight_of-absent :
    (p : Address → Bool) (a : Address) (ns : List Node)
    → is_authority ns a ≡ false
    → weight_of (λ n. p n.address || list_beq a n.address) ns ≡ weight_of (λ n. p n.address) ns
weight_of-absent p a [] absent = refl
weight_of-absent p a (n ∷ ns) absent =
    ground (arith, weight_of-absent p a ns, list_beq_iff a n.address, list_beq_iff n.address a)

-- One more address adds the weight of its node.
weight_of-more :
    (p : Address → Bool) (a : Address) (node : Node) (ns : List Node)
    → HasDistinct ns
    → find (λ (n : Node). n.address == a) ns ≡ some node
    → p a ≡ false
    → weight_of (λ n. p n.address || list_beq a n.address) ns
      ≡ weight_of (λ n. p n.address) ns + node.vote_weight
weight_of-more p a node [] distinct found fresh = cc
weight_of-more p a node (n ∷ ns) distinct found fresh = elim (Bool-cases (list_beq n.address a)) [
  | inl here ↦
      let e : n.address ≡ a = (list_beq_iff n.address a).0 here in
      let e' : n ≡ node = ground arith in
      let absent : is_authority ns a ≡ false = rw e at distinct.0 in
      let back : list_beq a n.address ≡ true = ground (arith, list_beq_iff a n.address) in
      let fresh' : p n.address ≡ false = rw e fresh in
      let weight = ap (λ (m : Node). m.vote_weight) e' in
      rw (back, fresh') (omega (arith, weight_of-absent p a ns absent))
  | inr there ↦
      let back : list_beq a n.address ≡ false =
        ground (arith, list_beq_iff a n.address, list_beq_iff n.address a) in
      let rest = weight_of-more p a node ns distinct.1 (rw there at found) fresh in
      ground (arith, rest)
]

All-insert {κ} :
    (P : Address × SignedVote → Type κ) (a : Address) (v : SignedVote)
    (m : HashMap Address SignedVote)
    → contains_key a m ≡ false
    → P (a, v)
    → All P m
    → All P (insert a v m)
All-insert P a v [] absent p ps = (p, tt)
All-insert P a v ((b, w) ∷ m) absent p ps = elim (Bool-cases (list_beq b a)) [
  | inl here ↦ absurd (ground arith)
  | inr there ↦ rw there (ps.0, All-insert P a v m (ground arith) p ps.1)
]

-- A new vote for a hash is one more among the votes for it.
voted-insert :
    (g : Hash) (v : SignedVote) (m : HashMap Address SignedVote) (b : Address)
    → contains_key v.vote.voter m ≡ false
    → voted (polc_of g (insert v.vote.voter v m)) b
      ≡ (voted (polc_of g m) b || (list_beq v.vote.block_hash g && list_beq v.vote.voter b))
voted-insert g v [] b absent = ground arith
voted-insert g v ((a, w) ∷ m) b absent = elim (Bool-cases (list_beq a v.vote.voter)) [
  | inl here ↦ absurd (ground arith)
  | inr there ↦ let rest = voted-insert g v m b (ground arith) in rw there (ground (arith, rest))
]

module _ ⦃env : Env⦄ where
  open env use {check_sig}

  -- The vote of an authority, of this type, height and round, with its signature.
  pub record IsCast (ns : List Node) (height round : ℕ) (kind : VoteType) (v : SignedVote)
      : Type 0 where
    pub listed : is_authority ns v.vote.voter ≡ true
    pub of_kind : v.vote.vote_type ≡ kind
    pub of_height : v.vote.height ≡ height
    pub of_round : v.vote.round ≡ round
    pub signed : check_sig v.signature (vote_hash v.vote) ≡ some v.vote.voter

  -- An entry of `votes_by_sender`.
  abbrev pub IsEntry : List Node → ℕ → ℕ → VoteType → Address × SignedVote → Type 0
  IsEntry ns height round kind (a, v) = (a ≡ v.vote.voter) × IsCast ns height round kind v

  -- Every vote is cast under its voter's name, and the count of each hash is the exact weight of the
  -- authorities that voted for it.
  pub record IsTallied (ns : List Node) (height round : ℕ) (kind : VoteType) (s : VoteSet)
      : Type 0 where
    pub entries : All (IsEntry ns height round kind) s.votes_by_sender
    pub senders : IsMap s.votes_by_sender
    pub keyed : IsMap s.votes_by_proposal
    pub tally :
        (hash : Hash)
        → lookup_or hash 0 s.votes_by_proposal
          ≡ weight_of (λ n. voted (polc_of hash s.votes_by_sender) n.address) ns

  pub new-IsTallied :
      (ns : List Node) (height round : ℕ) (kind : VoteType) → IsTallied ns height round kind new
  new-IsTallied ns height round kind = record {
    entries = tt;
    senders = tt;
    keyed = tt;
    tally = λ hash. sym (weight_of-none ns);
  }

  voted-fresh :
      (ns : List Node) (height round : ℕ) (kind : VoteType) (g : Hash)
      (m : HashMap Address SignedVote) (a : Address)
      → All (IsEntry ns height round kind) m
      → contains_key a m ≡ false
      → voted (polc_of g m) a ≡ false
  voted-fresh ns height round kind g [] a entries absent = refl
  voted-fresh ns height round kind g ((b, v) ∷ m) a entries absent =
      let e = entries.0.0 in
      let rest = voted-fresh ns height round kind g m a entries.1 in ground (arith, rest, e)

  tally-add :
      (ns : List Node) (height round : ℕ) (kind : VoteType) (v : SignedVote) (node : Node)
      (s : VoteSet) (g : Hash)
      → IsTallied ns height round kind s
      → HasDistinct ns
      → total_of ns < 2 ^ 64
      → find (λ (n : Node). n.address == v.vote.voter) ns ≡ some node
      → contains_key v.vote.voter s.votes_by_sender ≡ false
      → (if list_beq v.vote.block_hash g
          then add64 (lookup_or v.vote.block_hash 0 s.votes_by_proposal) node.vote_weight
          else lookup_or g 0 s.votes_by_proposal)
        ≡ weight_of (λ n. voted (polc_of g (insert v.vote.voter v s.votes_by_sender)) n.address) ns
  tally-add ns height round kind v node s g t distinct fits found absent =
      let old : Address → Bool = voted (polc_of g s.votes_by_sender) in
      let same =
        weight_of-ext (voted (polc_of g (insert v.vote.voter v s.votes_by_sender)))
          (λ a. old a || (list_beq v.vote.block_hash g && list_beq v.vote.voter a)) ns
          (λ a. voted-insert g v s.votes_by_sender a absent) in
      elim (Bool-cases (list_beq v.vote.block_hash g)) [
        | inl here ↦
            let e : v.vote.block_hash ≡ g = (list_beq_iff v.vote.block_hash g).0 here in
            let fresh =
              voted-fresh ns height round kind g s.votes_by_sender v.vote.voter t.entries absent in
            let more = weight_of-more old v.vote.voter node ns distinct found fresh in
            let widen =
              weight_of-ext
                (λ a. old a || (list_beq v.vote.block_hash g && list_beq v.vote.voter a))
                (λ a. old a || list_beq v.vote.voter a) ns (λ a. rw here refl) in
            let bound =
              weight_of-le_total (λ n. old n.address || list_beq v.vote.voter n.address) ns in
            let counts = ap (λ (h : Hash). lookup_or h 0 s.votes_by_proposal) e ∙ t.tally g in
            rw here (omega (arith, same, widen, more, bound, counts))
        | inr other ↦
            let narrow =
              weight_of-ext
                (λ a. old a || (list_beq v.vote.block_hash g && list_beq v.vote.voter a)) old ns
                (λ a. ground arith) in
            rw other (omega (arith, same, narrow, t.tally g))
      ]

  lookup_or-insert :
      (g h : Hash) (n : ℕ) (m : HashMap Hash ℕ)
      → lookup_or g 0 (insert h n m) ≡ (if list_beq h g then n else lookup_or g 0 m)
  lookup_or-insert g h n m = ground (arith, lookup-insert h g n m)

  -- `VoteSet::add` of the vote of an authority, with its weight, keeps the counters exact, for
  -- authorities with different addresses and less than 2 ^ 64 in weight.
  pub add-IsTallied :
      (ns : List Node) (height round : ℕ) (kind : VoteType) (v : SignedVote) (node : Node)
      (s : VoteSet)
      → HasDistinct ns
      → total_of ns < 2 ^ 64
      → IsCast ns height round kind v
      → find (λ (n : Node). n.address == v.vote.voter) ns ≡ some node
      → IsTallied ns height round kind s
      → IsTallied ns height round kind (add v node.vote_weight s).1
  unfolding add
  add-IsTallied ns height round kind v node s distinct fits cast found t =
      elim (Bool-cases (contains_key v.vote.voter s.votes_by_sender)) [
        | inl there ↦ rw there t
        | inr absent ↦ rw absent (record {
          entries =
              All-insert (IsEntry ns height round kind) v.vote.voter v s.votes_by_sender absent
                (refl, cast) t.entries;
          senders = insert-IsMap v.vote.voter v s.votes_by_sender t.senders;
          keyed =
              insert-IsMap v.vote.block_hash
                (add64 (lookup_or v.vote.block_hash 0 s.votes_by_proposal) node.vote_weight)
                s.votes_by_proposal t.keyed;
          tally = λ g.
              rw
                (lookup_or-insert g v.vote.block_hash
                  (add64 (lookup_or v.vote.block_hash 0 s.votes_by_proposal) node.vote_weight)
                  s.votes_by_proposal)
                (tally-add ns height round kind v node s g t distinct fits found absent);
        })
      ]
