-- ===== src/Codec/RoundTrip/Proofs.antt =====
-- About encoding and decoding proofs: `Encodable` and `Decodable` for `Proof` of src/lib.rs.
use mathlib.Core.List.Permᴰ
use mathlib.Core.List.{Permᴰ, append_assoc, append-nil}
use bft_rs.Prelude.{
  ◌≡◌, refl, sym, ◌∙◌, false, ◌||◌, List, [], ◌∷◌, ◌++◌, map, ok, arith, IsU64, HashMap, All,
  insert, contains_key, IsMap, length, Bool-cases, inl, inr, list_beq, list_beq_iff, list_eq,
}
use bft_rs.Objects.{Bytes, Proof}
use bft_rs.Env.{Env, RlpLaws}
use bft_rs.Codec.{proof_item, item_proof, collect_zip}
use bft_rs.Codec.Items.{bytes_item, item_bytes, from_list, decode_all}
use bft_rs.Codec.RoundTrip.{to_list-from_list}
use bft_rs.Codec.Sorting.{sort_pairs, insert_pair, pair_leb}

insert_pair-perm :
    (p : Bytes × Bytes) (ps : List (Bytes × Bytes)) → Permᴰ (p ∷ ps) (insert_pair p ps)
insert_pair-perm p [] = Permᴰ.refl (p ∷ [])
insert_pair-perm p (q ∷ qs) = elim (Bool-cases (pair_leb p q)) [
  | inl here ↦ rw here (Permᴰ.refl (p ∷ q ∷ qs))
  | inr there ↦
      rw there (Permᴰ.trans (Permᴰ.swap refl refl) (Permᴰ.cons refl (insert_pair-perm p qs)))
]

pub sort_pairs-perm : (ps : List (Bytes × Bytes)) → Permᴰ ps (sort_pairs ps)
unfolding sort_pairs
sort_pairs-perm [] = Permᴰ.nil
sort_pairs-perm (p ∷ ps) =
    Permᴰ.trans (Permᴰ.cons refl (sort_pairs-perm ps)) (insert_pair-perm p (sort_pairs ps))

contains_key-insert_pair :
    (k : Bytes) (p : Bytes × Bytes) (ps : List (Bytes × Bytes))
    → contains_key k (insert_pair p ps) ≡ (list_beq p.0 k || contains_key k ps)
contains_key-insert_pair k p [] = ground arith
contains_key-insert_pair k p (q ∷ qs) = elim (Bool-cases (pair_leb p q)) [
  | inl here ↦ rw here (ground arith)
  | inr there ↦ rw there (ground (arith, contains_key-insert_pair k p qs))
]

insert_pair-IsMap :
    (p : Bytes × Bytes) (ps : List (Bytes × Bytes))
    → contains_key p.0 ps ≡ false
    → IsMap ps
    → IsMap (insert_pair p ps)
insert_pair-IsMap p [] fresh is_map = (refl, tt)
insert_pair-IsMap p (q ∷ qs) fresh is_map = elim (Bool-cases (pair_leb p q)) [
  | inl here ↦ rw here (fresh, is_map)
  | inr there ↦ rw there (
    ground (arith, contains_key-insert_pair q.0 p qs, list_beq_iff q.0 p.0, list_beq_iff p.0 q.0),
    insert_pair-IsMap p qs (ground arith) is_map.1,
  )
]

sort_pairs-keys :
    (k : Bytes) (ps : List (Bytes × Bytes)) → contains_key k (sort_pairs ps) ≡ contains_key k ps
unfolding sort_pairs
sort_pairs-keys k [] = refl
sort_pairs-keys k (p ∷ ps) =
    ground (arith, contains_key-insert_pair k p (sort_pairs ps), sort_pairs-keys k ps)

sort_pairs-IsMap : (ps : List (Bytes × Bytes)) → IsMap ps → IsMap (sort_pairs ps)
unfolding sort_pairs
sort_pairs-IsMap [] is_map = tt
sort_pairs-IsMap (p ∷ ps) is_map =
    insert_pair-IsMap p (sort_pairs ps) (sort_pairs-keys p.0 ps ∙ is_map.0)
      (sort_pairs-IsMap ps is_map.1)

insert-fresh :
    (k v : Bytes) (m : HashMap Bytes Bytes)
    → contains_key k m ≡ false
    → insert k v m ≡ m ++ ((k, v) ∷ [])
insert-fresh k v [] fresh = refl
insert-fresh k v ((j, w) ∷ m) fresh = ground (arith, insert-fresh k v m)

abbrev keys : List (Bytes × Bytes) → List Bytes
keys = map (λ (e : Bytes × Bytes). e.0)

abbrev values : List (Bytes × Bytes) → List Bytes
values = map (λ (e : Bytes × Bytes). e.1)

-- The keys of the first map are not those of the second.
abbrev Apart : HashMap Bytes Bytes → HashMap Bytes Bytes → Type 0
Apart ps m = All (λ (e : Bytes × Bytes). contains_key e.0 m ≡ false) ps

contains_key-last :
    (j k v : Bytes) (m : HashMap Bytes Bytes)
    → contains_key j (m ++ ((k, v) ∷ [])) ≡ (contains_key j m || list_beq k j)
contains_key-last j k v [] = ground arith
contains_key-last j k v ((i, w) ∷ m) = ground (arith, contains_key-last j k v m)

Apart-last :
    (k v : Bytes) (ps m : HashMap Bytes Bytes)
    → contains_key k ps ≡ false
    → Apart ps m
    → Apart ps (m ++ ((k, v) ∷ []))
Apart-last k v [] m fresh apart = tt
Apart-last k v ((j, w) ∷ ps) m fresh apart = (
  ground (arith, contains_key-last j k v m, list_beq_iff k j, list_beq_iff j k),
  Apart-last k v ps m (ground arith) apart.1,
)

Apart-none : (ps : HashMap Bytes Bytes) → Apart ps []
Apart-none [] = tt
Apart-none (p ∷ ps) = (refl, Apart-none ps)

pub bytes_back : (b : Bytes) → item_bytes (bytes_item b) ≡ ok b
unfolding item_bytes bytes_item
bytes_back b = refl

module _ ⦃env : Env⦄ where
  collect_zip-keys :
      (m ps : HashMap Bytes Bytes)
      → IsMap ps
      → Apart ps m
      → collect_zip m (keys ps) (values ps) ≡ m ++ ps
  collect_zip-keys m [] is_map apart = sym (append-nil m)
  collect_zip-keys m ((k, v) ∷ ps) is_map apart =
      let rest =
        collect_zip-keys (m ++ ((k, v) ∷ [])) ps is_map.1 (Apart-last k v ps m is_map.0 apart.1) in
      rw (insert-fresh k v m apart.0) (rest ∙ append_assoc m ((k, v) ∷ []) ps)

  keys_back :
      (ps : List (Bytes × Bytes))
      → decode_all item_bytes (map (λ (e : Bytes × Bytes). bytes_item e.0) ps) ≡ ok (keys ps)
  unfolding item_bytes bytes_item
  keys_back [] = refl
  keys_back (p ∷ ps) = ground (arith, keys_back ps)

  values_back :
      (ps : List (Bytes × Bytes))
      → decode_all item_bytes (map (λ (e : Bytes × Bytes). bytes_item e.1) ps) ≡ ok (values ps)
  unfolding item_bytes bytes_item
  values_back [] = refl
  values_back (p ∷ ps) = ground (arith, values_back ps)

-- The length of the keys is that of the values.
keys-length : (ps : List (Bytes × Bytes)) → length (keys ps) ≡ length (values ps)
keys-length [] = refl
keys-length (p ∷ ps) = ground (arith, keys-length ps)

-- Two proofs of the same votes, in whatever order.
pub record SameProof (p q : Proof) : Type 0 where
  pub same_height : p.height ≡ q.height
  pub same_round : p.round ≡ q.round
  pub same_hash : p.block_hash ≡ q.block_hash
  pub same_votes : Permᴰ p.precommit_votes q.precommit_votes

-- A proof whose numbers are 64-bit words, and whose map has no key twice.
pub record ProofFits (p : Proof) : Type 0 where
  pub height_fits : IsU64 p.height
  pub round_fits : IsU64 p.round
  pub is_map : IsMap p.precommit_votes

module _ ⦃env : Env⦄ (laws : RlpLaws env) where
  pub item_proof-sorted :
      (p : Proof)
      → ProofFits p
      → item_proof (proof_item p) ≡ ok (record p { precommit_votes = sort_pairs p.precommit_votes })
  unfolding item_proof proof_item
  item_proof-sorted p fits =
      let ps = sort_pairs p.precommit_votes in
      ground (
        arith,
        laws.uint_back 64 p.height fits.height_fits,
        laws.uint_back 64 p.round fits.round_fits,
        laws.items_back (from_list (map (λ (e : Bytes × Bytes). bytes_item e.0) ps)),
        laws.items_back (from_list (map (λ (e : Bytes × Bytes). bytes_item e.1) ps)),
        to_list-from_list (map (λ (e : Bytes × Bytes). bytes_item e.0) ps),
        to_list-from_list (map (λ (e : Bytes × Bytes). bytes_item e.1) ps),
        keys_back ps,
        values_back ps,
        keys-length ps,
        bytes_back p.block_hash,
        collect_zip-keys [] ps (sort_pairs-IsMap p.precommit_votes fits.is_map) (Apart-none ps),
      )

  -- A proof whose numbers are 64-bit words is decoded from its item, up to the order of its votes.
  pub item_proof-proof_item :
      (p : Proof) → ProofFits p → (q : Proof) × (item_proof (proof_item p) ≡ ok q) × SameProof p q
  item_proof-proof_item p fits = (
    record p { precommit_votes = sort_pairs p.precommit_votes },
    item_proof-sorted p fits,
    record {
      same_height = refl;
      same_round = refl;
      same_hash = refl;
      same_votes = sort_pairs-perm p.precommit_votes;
    },
  )
