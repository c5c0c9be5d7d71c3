-- ===== src/Core/Counting/Locks.antt =====
-- The lock after a count of prevotes or precommits.
use bft_rs.Prelude.{
  ℕ, ◌≤◌, ◌≡◌, refl, sym, Bool, true, false, Option, none, some, [], ◌∷◌, HashMap, ok, arith,
  Bool-cases, inl, inr, find, is_empty,
}
use mathlib.Core.List.{Memᴰ}
use bft_rs.Objects.{Hash, LockStatus, VoteType, PrecommitRes}
use bft_rs.Env.{Env}
use bft_rs.Collect.VoteSet
use bft_rs.Collect.VoteSet.{VoteSet}
use bft_rs.Collect.Votes
use bft_rs.Machine.State.{Bft}
use bft_rs.Machine.Monad.{◌>>=◌}
use bft_rs.Machine.Access.{cal_above_threshold, votes_get, set_polc, set_timer}
use bft_rs.Core.Counting.{
  count_rounds, check_precommit_count, quorum_entry, precommit_quorum, count_precommits,
}
use bft_rs.Core.Counting.Rounds.{count_rounds_lem}

pub find-mem :
    (p : Hash × ℕ → Bool) (m : HashMap Hash ℕ) (e : Hash × ℕ)
    → find p m ≡ some e
    → Memᴰ e m × (p e ≡ true)
find-mem p [] e h = cc
find-mem p (x ∷ m) e h = elim (Bool-cases (p x)) [
  | inl here ↦ let e' : x ≡ e = ground arith in (Memᴰ.head (sym e'), rw (← e') here)
  | inr there ↦ let (m', q) = find-mem p m e (ground arith) in (Memᴰ.tail m', q)
]

module _ ⦃env : Env⦄ where
  -- The lock that `set_polc` makes of a vote set.
  abbrev pub lock_of : Bft → Hash → VoteSet → LockStatus
  lock_of s hash set = record {
    block_hash = hash;
    round = s.round;
    votes = VoteSet.extract_polc set hash;
  }

  -- A vote set of this height in which the block hash has enough weight, and it is not nil.
  abbrev pub HasQuorumFor : Bft → VoteType → ℕ → Hash → VoteSet → Type 0
  HasQuorumFor s t round hash set =
      ((Votes.get_voteset s.height round t s.votes).0 ≡ some set)
      × (is_empty hash ≡ false)
      × ((count : ℕ) × Memᴰ (hash, count) set.votes_by_proposal
          × (cal_above_threshold s count ≡ true))

  precommit_quorum-proposal :
      (t : Bft) (set : VoteSet) (found : Option (Hash × ℕ))
      → (precommit_quorum set found t).0 ≡ ok PrecommitRes.proposal
      → (hash : Hash) × (count : ℕ) × (found ≡ some (hash, count))
        × (is_empty hash ≡ false)
        × ((precommit_quorum set found t).1
            ≡ record t { block_hash = some hash; lock_status = some (lock_of t hash set) })
  unfolding set_polc set_timer ◌>>=◌
  precommit_quorum-proposal t set none h = absurd (ground arith)
  precommit_quorum-proposal t set (some (hash, count)) h =
      (hash, count, refl, ground arith, ground arith)

  count_precommits-proposal :
      (t : Bft) (c : Option VoteSet)
      → (count_precommits c t).0 ≡ ok PrecommitRes.proposal
      → (hash : Hash) × (count : ℕ) × (set : VoteSet) × (c ≡ some set)
        × (quorum_entry t set ≡ some (hash, count))
        × (is_empty hash ≡ false)
        × ((count_precommits c t).1
            ≡ record t { block_hash = some hash; lock_status = some (lock_of t hash set) })
  unfolding ◌>>=◌
  count_precommits-proposal t none h = absurd (ground arith)
  count_precommits-proposal t (some set) h = elim (Bool-cases (cal_above_threshold t set.count)) [
    | inl above ↦
        let (hash, count, found, full, state) =
          precommit_quorum-proposal t set (quorum_entry t set) (rw above at h) in
        (hash, count, set, refl, found, full, rw above state)
    | inr below ↦ absurd (ground arith)
  ]

  -- If the count of precommits ends in a proposal to commit, then the node is at a round whose
  -- precommits have enough weight for one block hash, which is not nil, and it is locked on that
  -- hash at that round with exactly the votes for it.
  pub check_precommit_count-proposal :
      (s : Bft)
      → (check_precommit_count s).0 ≡ ok PrecommitRes.proposal
      → let s' = (check_precommit_count s).1 in
        (hash : Hash) × (set : VoteSet) × HasQuorumFor s VoteType.precommit s'.round hash set
        × (s'.lock_status ≡ some (lock_of s' hash set))
        × (s'.block_hash ≡ some hash)
        × (s.round ≤ s'.round)
  unfolding check_precommit_count votes_get cal_above_threshold ◌>>=◌
  check_precommit_count-proposal s h =
      let (flag, s₁) = count_rounds (false, s) s.votes.precommit_count in
      let c = (Votes.get_voteset s₁.height s₁.round VoteType.precommit s₁.votes).0 in
      let t = record s₁ {
        votes = (Votes.get_voteset s₁.height s₁.round VoteType.precommit s₁.votes).1;
      } in
      elim (Bool-cases flag) [
        | inl e ↦
            let (hash, count, set, read, found, full, state) =
              count_precommits-proposal t c (rw e at h) in
            let frame = (count_rounds_lem s s.votes.precommit_count).0 in
            let grows = (count_rounds_lem s s.votes.precommit_count).1 in
            let (member, above) =
              find-mem (λ e. cal_above_threshold t e.1) set.votes_by_proposal (hash, count) found in
            let last : (check_precommit_count s).1
                ≡ record t { block_hash = some hash; lock_status = some (lock_of t hash set) } =
              rw e state in
            (
              hash,
              set,
              (ground arith, full, (count, member, ground arith)),
              ground arith,
              ground arith,
              ground arith,
            )
        | inr e ↦ absurd (ground arith)
      ]
