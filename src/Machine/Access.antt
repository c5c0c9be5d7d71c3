-- ===== src/Machine/Access.antt =====
-- The small methods of src/utils.rs on the state, and its caches as methods.
use bft_rs.Prelude.{
  ℕ, ◌+◌, ◌-◌, ◌*◌, ◌%◌, ◌^◌, Bool, true, false, ◌&&◌, not, Option, none, some, List, [], ◌∷◌, map,
  BftResult, ok, err, panic, should_not_happen, HashMap, lookup, insert, get_elem?, any, find,
  is_empty, ltb, ◌==◌, nat_eq, list_eq, if◌then◌else◌, add64, mul64,
}
use bft_rs.Objects.{
  TimeoutInfo, Bytes, Address, Hash, Signature, Block, Node, Step, LogType, SignedVote, Proof,
  Status, LockStatus, BftMsg, SignedProposal, VoteType,
}
use bft_rs.Objects.Authority.{receive_authorities_list}
use bft_rs.Env.{Env}
use bft_rs.Weight.{get_total_weight, get_index}
use bft_rs.Collect.VoteSet
use bft_rs.Collect.VoteSet.{VoteSet}
use bft_rs.Collect.Votes
use bft_rs.Collect.Proposals
use bft_rs.Collect.Blocks
use bft_rs.Wal
use bft_rs.Machine.Params.{BftTimer, set_total_duration, get_prevote}
use bft_rs.Machine.State.{Bft, Effect}
use bft_rs.Machine.Monad.{M, modify}

module _ ⦃env : Env⦄ where
  -- An effect on the outside.
  abbrev pub emit : Effect → M (Unit {0})
  emit e = modify λ s. record s { effects = e ∷ s.effects }

  unfoldable pub change_to_step : Step → M (Unit {0})
  change_to_step step = modify λ s. record s { step = step }

  unfoldable pub send_bft_msg : BftMsg → M (Unit {0})
  send_bft_msg msg = emit (Effect.send msg)

  -- The duration since `htime` is cut to 64 bits.
  abbrev pub timer_of : Bft → ℕ → Step → TimeoutInfo
  timer_of s duration step =
      let timestamp = s.clock + duration in
      record {
        timestamp = timestamp;
        duration = (timestamp - s.htime) % 2 ^ 64;
        height = s.height;
        round = s.round;
        step = step;
      }

  unfoldable pub set_timer : ℕ → Step → M (Unit {0})
  set_timer duration step =
      modify λ s. record s { effects = Effect.timer (timer_of s duration step) ∷ s.effects }

  -- `wal_log.save`
  unfoldable pub log : ℕ → LogType → Bytes → M (Unit {0})
  log height mtype msg = modify λ s. record s { wal_log = Wal.save height mtype msg s.wal_log }

  -- The list that `get_authorities` picks for a height.
  abbrev pub authorities_for : Bft → ℕ → List Node
  authorities_for s height =
      let p = s.authority_manage in
      if height == p.authority_h_old then p.authorities_old else p.authorities

  abbrev pub get_authorities : Bft → ℕ → BftResult (List Node)
  get_authorities s height =
      if is_empty (authorities_for s height)
      then err should_not_happen
      else ok (authorities_for s height)

  unfoldable pub get_vote_weight : Bft → ℕ → Address → ℕ
  get_vote_weight s height address =
      if height == s.height
      then (elim (find (λ (n : Node). n.address == address) s.authority_manage.authorities) [
        | none ↦ 1
        | some n ↦ n.vote_weight
      ])
      else 1

  abbrev node_at : Option Node → BftResult Address
  node_at none = panic
  node_at (some n) = ok n.address

  abbrev proposer_in : ℕ → List Node → BftResult Address
  proposer_in nonce authorities =
      elim (get_index nonce (map (λ (n : Node). n.proposal_weight) authorities)) [
        | ok i ↦ node_at (get_elem? authorities i)
        | err e ↦ err e
        | BftResult.panic ↦ panic
      ]

  unfoldable pub get_proposer : Bft → ℕ → ℕ → BftResult Address
  get_proposer s height round = elim (get_authorities s height) [
    | ok authorities ↦ proposer_in (add64 height round) authorities
    | err e ↦ err e
    | BftResult.panic ↦ panic
  ]

  unfoldable pub set_proof : Proof → M (Unit {0})
  set_proof proof =
      modify λ s. if ltb s.proof.height proof.height then record s { proof = proof } else s

  unfoldable pub set_status : Status → M (Unit {0})
  set_status status = modify λ s.
      let listed = any (λ (n : Node). n.address == s.params.address) status.authority_list in
      record s {
        authority_manage =
            receive_authorities_list s.authority_manage status.height status.authority_list;
        consensus_power =
            if s.consensus_power && not listed
            then false
            else if not s.consensus_power && listed
            then true
            else s.consensus_power;
        params = elim status.interval [
          | none ↦ s.params
          | some interval ↦ record s.params { timer = set_total_duration interval s.params.timer }
        ];
      }

  unfoldable pub set_polc : Hash → VoteSet → M (Unit {0})
  set_polc hash voteset = modify λ s. record s {
    block_hash = some hash;
    lock_status =
        some (record {
          block_hash = hash;
          round = s.round;
          votes = VoteSet.extract_polc voteset hash;
        });
  }

  abbrev pub collect_votes : List SignedVote → HashMap Address Signature → HashMap Address Signature
  collect_votes [] m = m
  collect_votes (v ∷ vs) m = collect_votes vs (insert v.vote.voter v.signature m)

  unfoldable pub generate_proof : Bft → LockStatus → Proof
  generate_proof s lock_status = record {
    height = s.height;
    round = lock_status.round;
    block_hash = lock_status.block_hash;
    precommit_votes = collect_votes lock_status.votes [];
  }

  unfoldable pub cal_all_vote : Bft → ℕ → Bool
  cal_all_vote s count = count == get_total_weight s.authority_manage.authorities

  unfoldable pub cal_above_threshold : Bft → ℕ → Bool
  cal_above_threshold s count =
      ltb (mul64 (get_total_weight s.authority_manage.authorities) 2) (mul64 count 3)

  unfoldable pub clean_polc : M (Unit {0})
  clean_polc = modify λ s. record s { block_hash = none; lock_status = none }

  unfoldable pub clean_save_info : M (Unit {0})
  clean_save_info = modify λ s. record s {
    block_hash = none;
    lock_status = none;
    votes = Votes.clear_vote_count s.votes;
    verify_results = if env.verify_req then [] else s.verify_results;
  }

  unfoldable pub clean_feed : M (Unit {0})
  clean_feed = modify λ s. record s { feed = none }

  unfoldable pub clean_filter : M (Unit {0})
  clean_filter = modify λ s. record s { height_filter = []; round_filter = [] }

  -- The test of both filters: the first message, or one 20 prevote durations after the last.
  abbrev pub passes : BftTimer → ℕ → Option ℕ → Bool
  passes timer now none = true
  passes timer now (some ins) = ltb (get_prevote timer * 20) (now - ins)

  unfoldable pub filter_height : Bft → Address → Bool
  filter_height s voter = passes s.params.timer s.clock (lookup voter s.height_filter)

  unfoldable pub filter_round : Bft → Address → Bool
  filter_round s voter = passes s.params.timer s.clock (lookup voter s.round_filter)

  -- The caches as methods: they change the order of use also when they only read.
  unfoldable pub proposals_get : ℕ → ℕ → M (Option SignedProposal)
  proposals_get height round s =
      let (p, c) = Proposals.get_proposal height round s.proposals in
      (ok p, record s { proposals = c })

  unfoldable pub proposals_add : SignedProposal → M (Unit {0})
  proposals_add p s = let (r, c) = Proposals.add p s.proposals in (r, record s { proposals = c })

  unfoldable pub proposals_remove : ℕ → ℕ → M (Unit {0})
  proposals_remove height round =
      modify λ s. record s { proposals = (Proposals.remove height round s.proposals).1 }

  unfoldable pub blocks_get : ℕ → Hash → M (Option Block)
  blocks_get height hash s =
      let (b, c) = Blocks.get_block height hash s.blocks in (ok b, record s { blocks = c })

  unfoldable pub blocks_add : ℕ → Hash → Block → M Bool
  blocks_add height hash block s =
      let (r, c) = Blocks.add height hash block s.blocks in (r, record s { blocks = c })

  unfoldable pub votes_add : SignedVote → ℕ → M (Unit {0})
  votes_add v weight s =
      let (r, c) = Votes.add_vote v weight s.height s.votes in (r, record s { votes = c })

  unfoldable pub votes_get : ℕ → ℕ → VoteType → M (Option VoteSet)
  votes_get height round vote_type s =
      let (v, c) = Votes.get_voteset height round vote_type s.votes in
      (ok v, record s { votes = c })
