-- ===== src/Checks/Sound/Order.antt =====
-- `check_proof` of src/lib.rs does not read the order of a proof's votes, nor does a proof's way over
-- the wire change what it results in.
use mathlib.Core.List.{Permᴰ}
use bft_rs.Prelude.{
  ℕ, ◌≡◌, refl, sym, ap, ◌∙◌, Bool, ◌&&◌, ◌||◌, List, [], ◌∷◌, map, ok, any, all, arith, list_beq,
}
use bft_rs.Objects.{Address, Signature, Node, Proof}
use bft_rs.Env.{Env, RlpLaws}
use bft_rs.Weight.{get_votes_weight, sum64}
use bft_rs.Codec.{proof_item, item_proof}
use bft_rs.Codec.RoundTrip.Proofs.{SameProof, ProofFits, item_proof-proof_item}
use bft_rs.Checks.{check_proof, vote_passes}

or_swap : (a b c : Bool) → (a || (b || c)) ≡ (b || (a || c))
or_swap a b c = ground arith

and_swap : (a b c : Bool) → (a && (b && c)) ≡ (b && (a && c))
and_swap a b c = ground arith

any-perm {ℓ} : {A : Type ℓ} (p : A → Bool) {xs ys : List A} → Permᴰ xs ys → any p xs ≡ any p ys
any-perm p Permᴰ.nil = refl
any-perm p (Permᴰ.cons e q) = rw (e, any-perm p q) refl
any-perm p (Permᴰ.swap e e') = rw (e, e') (or_swap (p _) (p _) (any p _))
any-perm p (Permᴰ.trans q r) = any-perm p q ∙ any-perm p r

all-perm {ℓ} : {A : Type ℓ} (p : A → Bool) {xs ys : List A} → Permᴰ xs ys → all p xs ≡ all p ys
all-perm p Permᴰ.nil = refl
all-perm p (Permᴰ.cons e q) = rw (e, all-perm p q) refl
all-perm p (Permᴰ.swap e e') = rw (e, e') (and_swap (p _) (p _) (all p _))
all-perm p (Permᴰ.trans q r) = all-perm p q ∙ all-perm p r

map-perm {ℓ κ} :
    {A : Type ℓ} {B : Type κ} (f : A → B) {xs ys : List A}
    → Permᴰ xs ys
    → Permᴰ (map f xs) (map f ys)
map-perm f Permᴰ.nil = Permᴰ.nil
map-perm f (Permᴰ.cons e q) = Permᴰ.cons (ap f e) (map-perm f q)
map-perm f (Permᴰ.swap e e') = Permᴰ.swap (ap f e) (ap f e')
map-perm f (Permᴰ.trans q r) = Permᴰ.trans (map-perm f q) (map-perm f r)

-- The weight of some voters does not depend on their order.
get_votes_weight-perm :
    (ns : List Node) {xs ys : List Address}
    → Permᴰ xs ys
    → get_votes_weight ns xs ≡ get_votes_weight ns ys
unfolding get_votes_weight sum64
get_votes_weight-perm [] p = refl
get_votes_weight-perm (n ∷ ns) p =
    ground (arith, any-perm (λ (b : Address). list_beq b n.address) p, get_votes_weight-perm ns p)

module _ ⦃env : Env⦄ where
  -- `check_proof` has one result on two proofs that differ in the order of their votes only.
  pub check_proof-order :
      (p q : Proof) (height : ℕ) (ns : List Node)
      → SameProof p q
      → check_proof p height ns ≡ check_proof q height ns
  unfolding check_proof
  check_proof-order p q height ns same =
      let weight =
        get_votes_weight-perm ns (map-perm (λ (e : Address × Signature). e.0) same.same_votes) in
      let passes = all-perm (vote_passes ns q) same.same_votes in
      rw (same.same_height, same.same_round, same.same_hash, weight, passes) refl

  -- A proof whose numbers are 64-bit words and whose map has no key twice is decoded from its item,
  -- and `check_proof` has one result on the decoded proof and on the encoded one, for any height and
  -- authorities.
  pub check_proof-decoded :
      RlpLaws env
      → (p : Proof) → ProofFits p
      → (q : Proof) × (item_proof (proof_item p) ≡ ok q)
        × ((height : ℕ) (ns : List Node) → check_proof q height ns ≡ check_proof p height ns)
  check_proof-decoded laws p fits =
      let (q, back, same) = item_proof-proof_item laws p fits in
      (q, back, λ height ns. sym (check_proof-order p q height ns same))
