-- ===== src/Core/Rounds.antt =====
-- Moving to another round or height, and the cached messages that are sent again then.
use bft_rs.Prelude.{
  ℕ, Bool, true, ◌&&◌, Option, none, some, List, [], ◌∷◌, HashMap, should_not_happen, ltb, leb,
  ◌==◌, nat_eq, if◌then◌else◌, add64, is_none,
}
use bft_rs.Objects.{Proposal, SignedProposal, SignedVote, LockStatus, BftMsg}
use bft_rs.Env.{Env}
use bft_rs.Framing.{combine_two}
use bft_rs.Codec.{signed_vote_item, signed_proposal_item}
use bft_rs.Collect.VoteSet.{StepCollector}
use bft_rs.Collect.Votes
use bft_rs.Collect.Votes.{RoundCollector}
use bft_rs.Wal
use bft_rs.Machine.State.{Bft}
use bft_rs.Machine.Monad.{M, get, modify, ◌>>=◌, ◌>>◌, done, handle_err, need}
use bft_rs.Machine.Access.{
  proposals_get, proposals_remove, blocks_get, send_bft_msg, clean_save_info, clean_filter,
}

module _ ⦃env : Env⦄ where
  open env use {rlp_encode, lru_get_mut, lru_values}

  -- Send the proposal again with its block.
  abbrev pub resend_proposal : ℕ → SignedProposal → M (Unit {0})
  resend_proposal height sp = do
    found ← blocks_get height sp.proposal.block_hash
    block ← need should_not_happen found
    send_bft_msg (BftMsg.proposal (combine_two (rlp_encode (signed_proposal_item sp)) block))

  abbrev pub taken : ℕ → ℕ → Option SignedProposal → M (Unit {0})
  taken height round none = done
  taken height round (some sp) = proposals_remove height round >> resend_proposal height sp

  -- `fetch_proposal`
  unfoldable pub fetch_proposal : ℕ → ℕ → M (Unit {0})
  fetch_proposal height round = proposals_get height round >>= taken height round

  -- `for (_, signed_vote) in vote_set.votes_by_sender.iter()`
  abbrev pub send_votes : HashMap (List ℕ) SignedVote → M (Unit {0})
  send_votes [] = done
  send_votes ((_, v) ∷ vs) =
      send_bft_msg (BftMsg.vote (rlp_encode (signed_vote_item v))) >> send_votes vs

  abbrev pub send_steps : StepCollector → M (Unit {0})
  send_steps [] = done
  send_steps ((_, set) ∷ sets) = send_votes set.votes_by_sender >> send_steps sets

  abbrev pub send_rounds : List StepCollector → M (Unit {0})
  send_rounds [] = done
  send_rounds (c ∷ cs) = send_steps c >> send_rounds cs

  abbrev pub send_collected :
      Option (RoundCollector × (RoundCollector → env.LruCache RoundCollector)) → ℕ → M (Unit {0})
  send_collected none height = done
  send_collected (some (rc, _)) height =
      modify (λ s. record s { votes = Votes.remove_height height s.votes })
      >> send_rounds (lru_values rc.round_votes)

  -- `fetch_votes`: the votes of the height leave the cache and are sent again.
  unfoldable pub fetch_votes : ℕ → M (Unit {0})
  fetch_votes height = do s ← get; send_collected (lru_get_mut height s.votes.votes) height

  -- `flush_cache`
  unfoldable pub flush_cache : M (Unit {0})
  unfolding fetch_proposal fetch_votes
  flush_cache = do s ← get; fetch_proposal s.height 0; fetch_votes s.height

  unfoldable pub goto_new_height : ℕ → M (Unit {0})
  goto_new_height new_height = do
    clean_save_info
    clean_filter
    modify λ s. record s {
      wal_log = Wal.set_height new_height s.wal_log;
      height = new_height;
      round = 0;
      htime = s.clock;
    }

  unfoldable pub goto_next_round : M (Unit {0})
  goto_next_round = do
    modify λ s. record s { round_filter = []; round = add64 s.round 1 }
    s ← get
    handle_err (fetch_proposal s.height s.round)

  -- A lock no later than `lock_round`, or none.
  abbrev pub lock_allows : Option LockStatus → ℕ → Bool
  lock_allows none lock_round = true
  lock_allows (some lock) lock_round = leb lock.round lock_round

  -- `self.round_filter.clear(); self.round = round`, if the round is later.
  abbrev pub raise_round : ℕ → Bft → Bft
  raise_round round s =
      if ltb s.round round then record s { round_filter = []; round = round } else s

  abbrev adopt : Proposal → ℕ → Bft → Bft
  adopt p lock_round s = record (raise_round p.round s) {
    block_hash = some p.block_hash;
    lock_status =
        some (record { block_hash = p.block_hash; round = lock_round; votes = p.lock_votes });
  }

  abbrev pub with_lock_round : Proposal → Option ℕ → Bft → Bft
  with_lock_round p (some lock_round) s =
      if lock_allows s.lock_status lock_round then adopt p lock_round s else s
  with_lock_round p none s =
      if is_none s.lock_status && (p.round == s.round)
      then record s { block_hash = some p.block_hash }
      else s

  -- `set_proposal`
  unfoldable pub set_proposal : Proposal → M (Unit {0})
  set_proposal p = modify (with_lock_round p p.lock_round)
