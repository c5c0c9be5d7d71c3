-- ===== src/Core/Justified/Polc.antt =====
-- The lock that `set_polc` of src/utils.rs makes of a vote set.
use bft_rs.Prelude.{
  ℕ, ◌^◌, ◌<◌, ◌≡◌, refl, sym, ◌∙◌, true, false, List, [], ◌∷◌, HashMap, All, arith, mul64,
  lookup_or, contains_key, IsMap, list_beq, list_beq_iff, list_eq, Bool-cases, inl, inr,
}
use mathlib.Core.List.{Memᴰ}
use bft_rs.Objects.{Address, Hash, Node, VoteType, SignedVote, LockStatus}
use bft_rs.Env.{Env}
use bft_rs.Weight.{contains, get_total_weight, get_votes_weight}
use bft_rs.Weight.Quorum.{total_of, get_votes_weight_exact}
use bft_rs.Checks.Votes.{lock_voters}
use bft_rs.Checks.Votes.Sound.{IsVetted, Fresh}
use bft_rs.Collect.VoteSet.{VoteSet, polc_of, extract_polc}
use bft_rs.Core.Commits.{lookup-Mem}
use bft_rs.Core.Commits.Tally.{IsTallied, IsEntry, voted, weight_of-ext}
use bft_rs.Core.Justified.{IsJustified}

-- The voters of the votes are those that have voted.
contains-lock_voters :
    (vs : List SignedVote) (a : Address) → contains (lock_voters vs) a ≡ voted vs a
contains-lock_voters [] a = refl
contains-lock_voters (v ∷ vs) a = ground (arith, contains-lock_voters vs a)

module _ ⦃env : Env⦄ (ns : List Node) (height round : ℕ) (kind : VoteType) (g : Hash) where
  polc_of-IsVetted :
      (m : HashMap Address SignedVote)
      → All (IsEntry ns height round kind) m
      → All (IsVetted ns height round g) (polc_of g m)
  polc_of-IsVetted [] h = tt
  polc_of-IsVetted ((a, v) ∷ m) h = elim (Bool-cases (list_beq v.vote.block_hash g)) [
    | inl same ↦
        let cast = h.0.1 in
        rw same (
          record {
            at_height = cast.of_height;
            at_round = cast.of_round;
            for_block = (list_beq_iff v.vote.block_hash g).0 same;
            signed = cast.signed;
            listed = cast.listed;
          },
          polc_of-IsVetted m h.1,
        )
    | inr other ↦ rw other (polc_of-IsVetted m h.1)
  ]

  polc_of-Fresh :
      (seen : List Address) (m : HashMap Address SignedVote)
      → ((a : Address) → contains_key a m ≡ true → contains seen a ≡ false)
      → IsMap m
      → All (IsEntry ns height round kind) m
      → Fresh seen (polc_of g m)
  polc_of-Fresh seen [] new is_map h = tt
  polc_of-Fresh seen ((a, v) ∷ m) new is_map h =
      let here : contains seen v.vote.voter ≡ false =
        rw (← h.0.0) (new a (ground (arith, list_beq_iff a a))) in
      let rest : (b : Address) → contains_key b m ≡ true → contains seen b ≡ false =
        λ b there. new b (ground arith) in
      let after : (b : Address)
          → contains_key b m ≡ true
          → contains (v.vote.voter ∷ seen) b ≡ false =
        λ b there. ground (arith, rest b there, h.0.0, list_beq_iff v.vote.voter b, is_map.0) in
      elim (Bool-cases (list_beq v.vote.block_hash g)) [
        | inl same ↦ rw same (here, polc_of-Fresh (v.vote.voter ∷ seen) m after is_map.1 h.1)
        | inr other ↦ rw other (polc_of-Fresh seen m rest is_map.1 h.1)
      ]

  -- The votes of a tallied set for a hash with enough weight justify a lock on it.
  pub extract_polc-IsJustified :
      (set : VoteSet) (count : ℕ) (lock : LockStatus)
      → IsTallied ns height round kind set
      → total_of ns < 2 ^ 64
      → Memᴰ (g, count) set.votes_by_proposal
      → mul64 (get_total_weight ns) 2 < mul64 count 3
      → lock ≡ record { block_hash = g; round = round; votes = extract_polc set g }
      → IsJustified ns height lock
  unfolding extract_polc
  extract_polc-IsJustified set count lock t fits member above e =
      let vs = polc_of g set.votes_by_sender in
      let same =
        weight_of-ext (contains (lock_voters vs)) (voted vs) ns (contains-lock_voters vs) in
      let counts = lookup-Mem g count set.votes_by_proposal t.keyed member in
      let tallied : lookup_or g 0 set.votes_by_proposal ≡ count = ground (arith, counts) in
      let weight : get_votes_weight ns (lock_voters vs) ≡ count =
        get_votes_weight_exact ns (lock_voters vs) fits ∙ same ∙ sym (t.tally g) ∙ tallied in
      rw e (record {
        votes = polc_of-IsVetted set.votes_by_sender t.entries;
        once = polc_of-Fresh [] set.votes_by_sender (λ a there. refl) t.senders t.entries;
        quorum = rw weight above;
      })
