-- ===== src/Tests/Locks.antt =====
-- Three prevotes that lock a node, and the proposal that it makes of the lock.
use bft_rs.Prelude.{
  ℕ, ◌≡◌, ◌↔◌, refl, some, [], ◌∷◌, ok, panic, arith, List, BftResult, err, ◌==◌, if◌then◌else◌,
  false,
}
use bft_rs.Objects.{BftMsg, Hash, LockStatus, Proposal, Step, TimeoutInfo, SignedVote, VoteType}
use bft_rs.Objects.Kinds.{vote_type_from_u8, vote_type_eq}
use bft_rs.Codec.{signed_vote_item, item_signed_vote, vote_item, item_vote, decode_with}
use bft_rs.Codec.Items.{bytes_item, item_bytes}
use bft_rs.Weight.{sum64, get_total_weight, get_index}
use bft_rs.Collect.VoteSet
use bft_rs.Collect.Votes
use bft_rs.Checks.{check_voter}
use bft_rs.Checks.Votes.{check_lock_votes}
use bft_rs.Checks.Save.{check_and_save_vote, store_vote}
use bft_rs.Machine.State.{Bft, Effect}
use bft_rs.Machine.Monad.{◌>>=◌}
use bft_rs.Machine.Access.{
  cal_above_threshold, change_to_step, votes_get, votes_add, set_polc, set_timer, get_vote_weight,
  get_proposer, proposals_get, log, send_bft_msg,
}
use bft_rs.Core.Counting.{count_round, count_rounds, check_prevote_count, lock_on}
use bft_rs.Core.Handlers.{handle_vote}
use bft_rs.Core.Process.{
  process, process_vote, on_prevote, timeout_process, on_timeout, timeout_prevote_wait,
}
use bft_rs.Core.Rounds.{goto_next_round, fetch_proposal}
use bft_rs.Core.Transmit.{
  transmit_proposal, locked_proposal, new_round_start, is_proposer, transmit_prevote,
  transmit_precommit,
}
use bft_rs.Collect.Proposals
use bft_rs.Machine.Params.{params_new, get_prevote}
use bft_rs.Core.Transmit.Offer.{Proposes, transmit_proposal_locked}
use bft_rs.Core.Replay.{Event, message, timeout, handle_event}
use bft_rs.Core.Justified.Offers.{IsOffered}
use bft_rs.Core.Entry.Climbs.{Climbs, IsSound}
use bft_rs.Core.Entry.Safety.{Climbs-offered}
use bft_rs.Core.Byzantine.{build_signed_vote}
use bft_rs.Tests.Sample.{sample, sample-LruLaws, prevote_by, proof_for, nodes, at_height_5}
use bft_rs.Tests.Sample.Rlp.{encode, decode}
use bft_rs.Tests.Commits.{at_height_5-AllTallied, at_height_5-HasAuthorities, at_height_5-HasRoom}

-- The node in the step Prevote.
abbrev prevoting : Bft
prevoting = record at_height_5 { step = Step.prevote }

prevoting-IsSound : IsSound sample-LruLaws prevoting
prevoting-IsSound = record {
  justified = (
    (
      at_height_5-AllTallied,
      record { present = refl; distinct = at_height_5-HasAuthorities.distinct; fits = omega arith },
      at_height_5-HasRoom,
    ),
    λ lock locked. absurd (ground (arith, locked)),
  );
  pos = omega arith;
  small = omega arith;
}

-- The events that bring the prevotes of the authorities 1, 2 and 3 as messages.
abbrev prevote_event : ℕ → Event
prevote_event a = message 0 (BftMsg.vote (encode (signed_vote_item (prevote_by a))))

abbrev prevoted : ℕ → Bft → Bft
prevoted a s = (handle_event (prevote_event a) s).1

abbrev locked : Bft
locked = prevoted 3 (prevoted 2 (prevoted 1 prevoting))

locked_run : Climbs prevoting locked
locked_run =
    Climbs.stays (prevote_event 3) tt
      (Climbs.stays (prevote_event 2) tt (Climbs.stays (prevote_event 1) tt Climbs.start))

-- The node is locked then, without a proposal.
abbrev lock_7 : LockStatus
lock_7 = record {
  block_hash = 7 ∷ [];
  round = 0;
  votes = prevote_by 1 ∷ prevote_by 2 ∷ prevote_by 3 ∷ [];
}

locks :
    (locked.lock_status ≡ some lock_7)
    × (locked.height ≡ 5)
    × (locked.authority_manage.authorities ≡ nodes)
unfolding handle_event process process_vote on_prevote handle_vote item_signed_vote item_vote
    signed_vote_item vote_item decode encode bytes_item item_bytes vote_type_from_u8 log
    check_and_save_vote check_voter store_vote votes_add get_vote_weight check_prevote_count
    count_rounds count_round cal_above_threshold get_total_weight sum64 votes_get lock_on set_polc
    set_timer change_to_step Votes.get_voteset Votes.add_vote Votes.add_round VoteSet.add_step
    VoteSet.add VoteSet.extract_polc ◌>>=◌
locks = (refl, refl, refl)

-- The proposal of round 1 with this lock.
abbrev proposal_1 : Proposal
proposal_1 = record {
  height = 5;
  round = 1;
  block_hash = 7 ∷ [];
  proof = proof_for (6 ∷ []);
  lock_round = some 0;
  lock_votes = lock_7.votes;
  proposer = 1 ∷ [];
}

proposal_1-IsOffered :
    IsOffered sample-LruLaws locked.authority_manage.authorities locked.height lock_7 proposal_1
      at_height_5
proposal_1-IsOffered =
    rw (locks.1, locks.2)
      (record {
        at_height = refl;
        of_round = refl;
        of_votes = refl;
        authorities = refl;
        range = refl;
        room = at_height_5-HasRoom;
      })

Climbs-offered_example :
    ((check_lock_votes proposal_1 (7 ∷ []) at_height_5).0 ≡ ok tt)
    ↔ (◌≡◌ {A = Hash} (7 ∷ []) (7 ∷ []))
Climbs-offered_example =
    Climbs-offered sample-LruLaws prevoting locked at_height_5 lock_7 proposal_1 prevoting-IsSound
      locked_run locks.0 proposal_1-IsOffered

-- The proposer of round 1, with this lock, that has never received a proposal.
abbrev holder : Bft
holder = record at_height_5 {
  params = params_new (3 ∷ []);
  lock_status = some lock_7;
  step = Step.precommit_wait;
}

transmit_proposal_locked_example : Proposes holder lock_7 (transmit_proposal holder)
transmit_proposal_locked_example = transmit_proposal_locked holder lock_7 refl refl

-- The timeout that leads to the next round.
abbrev precommit_wait_over : TimeoutInfo
precommit_wait_over = record {
  timestamp = 9;
  duration = 1;
  height = 5;
  round = 0;
  step = Step.precommit_wait;
}

-- It panics.
lock_without_proposal : (handle_event (timeout 10 precommit_wait_over) holder).0 ≡ panic
unfolding handle_event timeout_process on_timeout log goto_next_round fetch_proposal proposals_get
    Proposals.get_proposal new_round_start change_to_step is_proposer get_proposer get_index
    transmit_proposal locked_proposal ◌>>=◌
lock_without_proposal = refl

-- The block hashes of the prevotes that were broadcast, the last one first.
abbrev vote_hash : BftResult SignedVote → List Hash → List Hash
vote_hash (ok v) hashes =
    if v.vote.vote_type == VoteType.prevote then v.vote.block_hash ∷ hashes else hashes
vote_hash (err e) hashes = hashes
vote_hash panic hashes = hashes

abbrev prevoted_hashes : List Effect → List Hash
prevoted_hashes [] = []
prevoted_hashes (Effect.transmit (BftMsg.vote encode) ∷ es) =
    vote_hash (decode_with item_signed_vote encode) (prevoted_hashes es)
prevoted_hashes (e ∷ es) = prevoted_hashes es

-- A node that prevotes the block of a proposal, and waits for more prevotes.
abbrev waiting : Bft
waiting = record (transmit_prevote false (record at_height_5 { block_hash = some (9 ∷ []) })).1 {
  step = Step.prevote_wait;
}

abbrev over : Step → Event
over step = timeout 10 (record { timestamp = 9; duration = 1; height = 5; round = 0; step = step })

-- When the wait is over, and the precommit is due again, it prevotes nil in the same round.
prevotes_twice :
    prevoted_hashes
      (handle_event
        (over Step.precommit)
        (handle_event (over Step.prevote_wait) waiting).1).1.effects
    ≡ [] ∷ (9 ∷ []) ∷ []
unfolding handle_event timeout_process on_timeout timeout_prevote_wait transmit_prevote
    transmit_precommit build_signed_vote item_signed_vote item_vote signed_vote_item vote_item
    decode encode bytes_item item_bytes vote_type_from_u8 log change_to_step set_timer send_bft_msg
    get_prevote ◌>>=◌
prevotes_twice = refl
