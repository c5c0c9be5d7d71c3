-- ===== src/Collect/Proposals.antt =====
-- `ProposalCollector` and `ProposalRoundCollector` of src/collectors.rs.
pub mod Refines
use bft_rs.Prelude.{ℕ, Option, none, some, BftResult, ok, err, recv_msg_again, if◌then◌else◌}
use bft_rs.Objects.{SignedProposal}
use bft_rs.Env.{Env}
use bft_rs.Collect.Votes.{cache_n, stored}

module _ ⦃env : Env⦄ where
  open env use {LruCache, lru_new, lru_contains_key, lru_get_mut, lru_insert, lru_remove}

  pub record ProposalRoundCollector : Type 0 where
    pub round_proposals : LruCache SignedProposal

  -- `ProposalRoundCollector::add`
  unfoldable pub add_round :
      ℕ → SignedProposal → ProposalRoundCollector → BftResult (Unit {0}) × ProposalRoundCollector
  add_round round p c =
      if lru_contains_key round c.round_proposals
      then (err recv_msg_again, c)
      else (ok tt, record { round_proposals = lru_insert round p c.round_proposals })

  -- `ProposalRoundCollector::get_proposal`
  unfoldable pub get_round :
      ℕ → ProposalRoundCollector → Option SignedProposal × ProposalRoundCollector
  get_round round c = elim (lru_get_mut round c.round_proposals) [
    | none ↦ (none, c)
    | some (p, put) ↦ (some p, record { round_proposals = put p })
  ]

  -- `ProposalRoundCollector::remove`
  unfoldable pub remove_round :
      ℕ → ProposalRoundCollector → Option SignedProposal × ProposalRoundCollector
  remove_round round c =
      let (p, cache) = lru_remove round c.round_proposals in (p, record { round_proposals = cache })

  pub record ProposalCollector : Type 0 where
    pub proposals : LruCache ProposalRoundCollector

  -- `ProposalCollector::new`
  abbrev pub new : ProposalCollector
  new = record { proposals = lru_new cache_n }

  -- `ProposalCollector::add`; on a new height the inner `add` goes into an empty cache.
  unfoldable pub add : SignedProposal → ProposalCollector → BftResult (Unit {0}) × ProposalCollector
  unfolding add_round
  add p c =
      let height = p.proposal.height in
      let round = p.proposal.round in
      let (fresh, round_proposals) =
        add_round round p (record { round_proposals = lru_new cache_n }) in
      if lru_contains_key height c.proposals
      then elim (lru_get_mut height c.proposals) [
        | none ↦ (BftResult.panic, c)
        | some (rc, put) ↦
            let (r, rc') = add_round round p rc in (r, record { proposals = put rc' })
      ]
      else (
        fresh,
        stored fresh (record { proposals = lru_insert height round_proposals c.proposals }) c,
      )

  -- `ProposalCollector::get_proposal`
  unfoldable pub get_proposal :
      ℕ → ℕ → ProposalCollector → Option SignedProposal × ProposalCollector
  unfolding get_round
  get_proposal height round c = elim (lru_get_mut height c.proposals) [
    | none ↦ (none, c)
    | some (rc, put) ↦ let (p, rc') = get_round round rc in (p, record { proposals = put rc' })
  ]

  -- `ProposalCollector::remove`
  unfoldable pub remove : ℕ → ℕ → ProposalCollector → Option SignedProposal × ProposalCollector
  unfolding remove_round
  remove height round c = elim (lru_get_mut height c.proposals) [
    | none ↦ (none, c)
    | some (rc, put) ↦ let (p, rc') = remove_round round rc in (p, record { proposals = put rc' })
  ]
