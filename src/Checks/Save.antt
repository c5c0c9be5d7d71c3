-- ===== src/Checks/Save.antt =====
-- The `check_and_save_…` methods of src/utils.rs: what is kept of a message, and in which log.
use bft_rs.Prelude.{
  ℕ, Bool, true, false, ◌&&◌, ◌||◌, not, Option, none, some, obsolete_msg, higher_msg,
  invalid_sender, check_sig_failed, check_block_failed, should_not_happen, lookup, or_insert, ltb,
  leb, ◌==◌, nat_eq, list_eq, if◌then◌else◌, add64, sub64, is_some,
}
use bft_rs.Objects.{
  Bytes, Hash, Block, LogType, SignedVote, Proposal, SignedProposal, Status, Feed, VerifyResp,
}
use bft_rs.Env.{Env}
use bft_rs.Framing.{encode_block}
use bft_rs.Codec.{
  signed_vote_item, proposal_item, signed_proposal_item, proof_item, status_item, feed_item,
  verify_resp_item,
}
use bft_rs.Collect.Votes.{cache_n}
use bft_rs.Checks.{vote_hash, check_proof_and_set, check_proposer, check_voter}
use bft_rs.Checks.Votes.{check_lock_votes}
use bft_rs.Machine.State.{Effect}
use bft_rs.Machine.Monad.{
  M, pure, raise, get, modify, lift, ◌>>=◌, ◌>>◌, done, when, handle_err, need,
}
use bft_rs.Machine.Access.{emit, log, get_vote_weight, proposals_add, blocks_add, votes_add}

module _ ⦃env : Env⦄ where
  open env use {rlp_encode, check_sig, crypt_hash, check_block, verify_req}

  abbrev conflicts : VerifyResp → Option VerifyResp → Bool
  conflicts resp none = false
  conflicts resp (some old) = (if old.is_pass then not resp.is_pass else resp.is_pass)

  -- `save_verify_res`
  unfoldable pub save_verify_res : ℕ → VerifyResp → M (Unit {0})
  save_verify_res round resp = do
    s ← get
    when (conflicts resp (lookup round s.verify_results)) (raise should_not_happen)
    modify λ s. record s { verify_results = or_insert round resp s.verify_results }

  -- `check_and_save_verify_resp`
  unfoldable pub check_and_save_verify_resp : VerifyResp → Bool → M (Unit {0})
  unfolding save_verify_res
  check_and_save_verify_resp resp need_wal = do
    s ← get
    when need_wal (log s.height LogType.verify_resp (rlp_encode (verify_resp_item resp)))
    save_verify_res resp.round resp

  -- `check_block_txs`: with `verify_req` a thread asks, and its answer comes as a message.
  unfoldable pub check_block_txs : Proposal → Block → Hash → M (Unit {0})
  check_block_txs p block signed_proposal_hash =
      let at : ℕ × ℕ = (p.height, p.round) in
      let is_lock = is_some p.lock_round in
      if verify_req
      then emit
          (Effect.spawn_check_block block p.block_hash signed_proposal_hash at is_lock p.proposer)
      else (need check_block_failed
            (check_block block p.block_hash signed_proposal_hash at is_lock p.proposer)
          >>= λ resp.
              check_and_save_verify_resp resp false
              >> when (not resp.is_pass) (raise check_block_failed))

  -- The checks of a proposal for this height or the one below; `true` ends the call.
  unfoldable pub check_current : SignedProposal → Block → Bytes → M Bool
  check_current sp block encode = do
    let p = sp.proposal
    s ← get
    lift (check_proposer s p)
    check_lock_votes p p.block_hash
    if p.height == sub64 s.height 1
        then pure true
        else (check_block_txs p block (crypt_hash encode)
            >> (check_proof_and_set p.height p.proof >> pure false))

  -- The proposal and its block go into the caches and the log.
  unfoldable pub store_proposal : SignedProposal → Block → Bool → M (Unit {0})
  store_proposal sp block need_wal = do
    let p = sp.proposal
    proposals_add sp
    save ← blocks_add p.height p.block_hash block
    when (need_wal && save) (log p.height LogType.block (encode_block p.height block p.block_hash))
    when need_wal (log p.height LogType.proposal (rlp_encode (signed_proposal_item sp)))

  -- `check_and_save_proposal`
  unfoldable pub check_and_save_proposal : SignedProposal → Block → Bytes → Bool → M (Unit {0})
  unfolding check_current store_proposal
  check_and_save_proposal sp block encode need_wal = do
    let p = sp.proposal
    let height = p.height
    let round = p.round
    s ← get
    when (ltb height (sub64 s.height 1)) (raise obsolete_msg)
    address ←
        need check_sig_failed (check_sig sp.signature (crypt_hash (rlp_encode (proposal_item p))))
    when (not (p.proposer == address)) (raise invalid_sender)
    returned ←
        if (height == s.height) || (height == sub64 s.height 1)
        then check_current sp block encode
        else pure false
    if returned
        then done
        else (when
              (leb s.height height
                && ltb height (add64 s.height cache_n)
                && ltb round (add64 s.round cache_n))
              (store_proposal sp block need_wal)
            >> when
                (ltb s.height height || ((height == s.height) && leb (add64 s.round cache_n) round))
                (raise higher_msg))

  -- The vote goes into the cache, and into the log if it was new.
  unfoldable pub store_vote : SignedVote → Bool → M (Unit {0})
  store_vote sv need_wal = do
    s ← get
    votes_add sv (get_vote_weight s sv.vote.height sv.vote.voter)
    when need_wal (log sv.vote.height LogType.vote (rlp_encode (signed_vote_item sv)))

  -- `check_and_save_vote`
  unfoldable pub check_and_save_vote : SignedVote → Bool → M (Unit {0})
  unfolding store_vote
  check_and_save_vote sv need_wal = do
    let height = sv.vote.height
    let round = sv.vote.round
    s ← get
    when (ltb height (sub64 s.height 1)) (raise obsolete_msg)
    address ← need check_sig_failed (check_sig sv.signature (vote_hash sv.vote))
    when (not (sv.vote.voter == address)) (raise invalid_sender)
    when (height == s.height) (lift (check_voter s sv.vote))
    when
        (leb s.height height
          && ltb height (add64 s.height cache_n)
          && ltb round (add64 s.round cache_n))
        (handle_err (store_vote sv need_wal))
    when (ltb s.height height || leb (add64 s.round cache_n) round) (raise higher_msg)

  -- `check_and_save_status`
  unfoldable pub check_and_save_status : Status → Bool → M (Unit {0})
  check_and_save_status status need_wal = do
    s ← get
    when (ltb 0 s.height && ltb status.height (sub64 s.height 1)) (raise obsolete_msg)
    when need_wal (
        log (add64 s.height 1) LogType.proof (rlp_encode (proof_item s.proof))
        >> log (add64 status.height 1) LogType.status (rlp_encode (status_item status)))

  -- `check_and_save_feed`
  unfoldable pub check_and_save_feed : Feed → Bool → M (Unit {0})
  check_and_save_feed feed need_wal = do
    s ← get
    when (ltb feed.height s.height) (raise obsolete_msg)
    when (ltb s.height feed.height) (raise higher_msg)
    when need_wal (log feed.height LogType.feed (rlp_encode (feed_item feed)))
    _ ← blocks_add feed.height feed.block_hash feed.block
    modify λ s. record s { feed = some feed.block_hash }
