-- ===== src/Collect/Votes.antt =====
-- `RoundCollector` and `VoteCollector` of src/collectors.rs.
pub mod View
pub mod Refines
pub mod Reads
use bft_rs.Prelude.{
  ℕ, Option, none, some, [], BftResult, ok, err, HashMap, lookup, insert, or_insert, lookup_or,
  add64, ◌==◌, nat_eq, if◌then◌else◌,
}
use bft_rs.Objects.{SignedVote, VoteType}
use bft_rs.Objects.Kinds.{vote_type_eq}
use bft_rs.Env.{Env}
use bft_rs.Collect.VoteSet
use bft_rs.Collect.VoteSet.{VoteSet, StepCollector}

-- `CACHE_N`
abbrev pub cache_n : ℕ
cache_n = 16

-- The part of `add` that follows on a new entry: it is stored unless its own `add` failed.
abbrev pub stored : {A : Type 0} → BftResult (Unit {0}) → A → A → A
stored (ok _) kept old = kept
stored (err _) kept old = old
stored BftResult.panic kept old = old

module _ ⦃env : Env⦄ where
  open env use {LruCache, lru_new, lru_contains_key, lru_get_mut, lru_insert, lru_remove}

  pub record RoundCollector : Type 0 where
    pub round_votes : LruCache StepCollector

  -- `RoundCollector::new`
  abbrev pub round_new : RoundCollector
  round_new = record { round_votes = lru_new cache_n }

  -- `RoundCollector::add`; the `unwrap` of a missing entry panics.
  unfoldable pub add_round : SignedVote → ℕ → RoundCollector → BftResult (Unit {0}) × RoundCollector
  add_round v weight c =
      let round = v.vote.round in
      let (fresh, step_votes) = VoteSet.add_step v weight [] in
      if lru_contains_key round c.round_votes
      then elim (lru_get_mut round c.round_votes) [
        | none ↦ (BftResult.panic, c)
        | some (s, put) ↦
            let (r, s') = VoteSet.add_step v weight s in (r, record { round_votes = put s' })
      ]
      else (
        fresh,
        stored fresh (record { round_votes = lru_insert round step_votes c.round_votes }) c,
      )

  -- `RoundCollector::get_voteset`; `get_mut` moves the entry to the front.
  unfoldable pub get_voteset_round : ℕ → VoteType → RoundCollector → Option VoteSet × RoundCollector
  get_voteset_round round vote_type c = elim (lru_get_mut round c.round_votes) [
    | none ↦ (none, c)
    | some (s, put) ↦ (lookup vote_type s, record { round_votes = put s })
  ]

  pub record VoteCollector : Type 0 where
    pub votes : LruCache RoundCollector
    pub prevote_count : HashMap ℕ ℕ
    pub precommit_count : HashMap ℕ ℕ

  -- `VoteCollector::new`
  abbrev pub collector_new : VoteCollector
  collector_new = record { votes = lru_new cache_n; prevote_count = []; precommit_count = [] }

  -- The body of both branches of `VoteCollector::add` on the cache.
  unfoldable pub add_cached :
      SignedVote → ℕ → LruCache RoundCollector → BftResult (Unit {0}) × LruCache RoundCollector
  add_cached v weight votes =
      let height = v.vote.height in
      let (fresh, round_votes) = add_round v weight round_new in
      if lru_contains_key height votes
      then elim (lru_get_mut height votes) [
        | none ↦ (BftResult.panic, votes)
        | some (c, put) ↦ let (r, c') = add_round v weight c in (r, put c')
      ]
      else (fresh, stored fresh (lru_insert height round_votes votes) votes)

  -- The counter of the round: it is there from the start of the call, and grows only if the vote
  -- was added at the current height.
  abbrev pub counted : BftResult (Unit {0}) → SignedVote → ℕ → ℕ → HashMap ℕ ℕ → HashMap ℕ ℕ
  counted (ok _) v weight current m =
      let round = v.vote.round in
      if v.vote.height == current
      then insert round (add64 (lookup_or round 0 m) weight) m
      else or_insert round 0 m
  counted _ v weight current m = or_insert v.vote.round 0 m

  -- `VoteCollector::add`
  unfoldable pub add_vote :
      SignedVote → ℕ → ℕ → VoteCollector → BftResult (Unit {0}) × VoteCollector
  unfolding add_cached
  add_vote v weight current c =
      let (r, votes) = add_cached v weight c.votes in
      if v.vote.vote_type == VoteType.prevote
      then (
        r,
        record c { votes = votes; prevote_count = counted r v weight current c.prevote_count },
      )
      else (
        r,
        record c { votes = votes; precommit_count = counted r v weight current c.precommit_count },
      )

  -- `VoteCollector::clear_vote_count`
  unfoldable pub clear_vote_count : VoteCollector → VoteCollector
  clear_vote_count c = record c { prevote_count = []; precommit_count = [] }

  -- `VoteCollector::remove`
  unfoldable pub remove_height : ℕ → VoteCollector → VoteCollector
  unfolding clear_vote_count
  remove_height height c = clear_vote_count (record c { votes = (lru_remove height c.votes).1 })

  -- `VoteCollector::get_voteset`
  unfoldable pub get_voteset : ℕ → ℕ → VoteType → VoteCollector → Option VoteSet × VoteCollector
  unfolding get_voteset_round
  get_voteset height round vote_type c = elim (lru_get_mut height c.votes) [
    | none ↦ (none, c)
    | some (rc, put) ↦
        let (s, rc') = get_voteset_round round vote_type rc in (s, record c { votes = put rc' })
  ]
