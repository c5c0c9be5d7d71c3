-- ===== src/Tests/Fork.antt =====
-- Two nodes that count precommits of the same authorities for different blocks. The first enters the
-- height with a status.
use bft_rs.Prelude.{is_some, ℕ, ◌≡◌, refl, sym, ◌∙◌, true, some, none, [], ◌∷◌, ok, arith}
use bft_rs.Objects.{BftMsg, LockStatus, VoteType, PrecommitRes, SignedVote, Status}
use bft_rs.Objects.Authority.{receive_authorities_list, sort_nodes}
use bft_rs.Objects.Kinds.{vote_type_from_u8}
use bft_rs.Env.{Env, LruLaws}
use bft_rs.Codec.{signed_vote_item, item_signed_vote, vote_item, item_vote}
use bft_rs.Codec.Items.{bytes_item, item_bytes}
use bft_rs.Weight.{sum64, get_total_weight, get_index}
use bft_rs.Collect.VoteSet
use bft_rs.Collect.Votes
use bft_rs.Collect.Votes.Refines.{collector_new-HasRoom, add_vote-get_voteset}
use bft_rs.Collect.Votes.View.{HasRoom}
use bft_rs.Checks.{check_voter}
use bft_rs.Checks.Save.{check_and_save_vote, store_vote, check_and_save_status}
use bft_rs.Machine.State.{Bft, bft_new}
use bft_rs.Machine.Monad.{◌>>=◌}
use bft_rs.Machine.Access.{
  log, cal_above_threshold, votes_get, votes_add, set_polc, get_vote_weight, generate_proof,
  set_status, clean_save_info, clean_filter, proposals_get, get_proposer, change_to_step, set_timer,
}
use bft_rs.Core.Counting.{count_round, count_rounds, check_precommit_count}
use bft_rs.Core.Handlers.{handle_vote, handle_status}
use bft_rs.Core.Process.{process, process_vote, on_precommit}
use bft_rs.Core.Replay.{Event, message, handle_event}
use bft_rs.Core.Commits.Invariant.{TalliedUnder}
use bft_rs.Core.Commits.Fork.{Own, peer, AgreeOrFork}
use bft_rs.Core.Transmit.{new_round_start, is_proposer, transmit_proposal, propose_timeout}
use bft_rs.Core.Rounds.{goto_new_height, flush_cache, fetch_proposal, fetch_votes}
use bft_rs.Core.Justified.{LockIsJustified}
use bft_rs.Core.Entry.Enter.{Enters, IsEntered}
use bft_rs.Core.Entry.Leads.{LeadsTo, handle_event-IsEntered}
use bft_rs.Core.Entry.Climbs.{Climbs, IsSound, Climbs-LockIsJustified}
use bft_rs.Core.Entry.Safety.{Climbs-AgreeOrFork}
use bft_rs.Collect.Proposals
use bft_rs.Tests.Sample.{sample, sample-LruLaws, nodes, vote_by, at_height_5}
use bft_rs.Tests.Sample.Rlp.{encode, decode}
use bft_rs.Tests.Commits.{precommit_event}

-- The node 1 at height 3, and a status of height 4.
abbrev at_height_3 : Bft
at_height_3 = record at_height_5 { height = 3 }

at_height_3-IsSound : IsSound sample-LruLaws at_height_3
unfolding Votes.get_voteset
at_height_3-IsSound = record {
  justified = (
    (
      (λ round kind set found. absurd (ground (arith, found))),
      record { present = refl; distinct = (refl, (refl, (refl, (refl, tt)))); fits = omega arith },
      collector_new-HasRoom sample-LruLaws,
    ),
    λ lock locked. absurd (ground (arith, locked)),
  );
  pos = omega arith;
  small = omega arith;
}

abbrev status_4 : Status
status_4 = record { height = 4; interval = none; authority_list = nodes }

abbrev status_event : Event
status_event = message 0 (BftMsg.status status_4)

status_4-Enters : Enters at_height_3 status_4 5
unfolding Proposals.get_proposal
status_4-Enters = record {
  distinct = (refl, (refl, (refl, (refl, tt))));
  fits = omega arith;
  pos = omega arith;
  later = λ e. omega (arith, e);
  not_old = λ e. omega (arith, e);
  block = λ sp found. absurd (ground (arith, found));
}

abbrev entered : Bft
entered = (handle_event status_event at_height_3).1

abbrev after_event : ℕ → Bft → Bft
after_event a s = (handle_event (precommit_event a) s).1

abbrev received : Bft
received = after_event 3 (after_event 2 (after_event 1 entered))

received_run : Climbs at_height_3 received
received_run = Climbs.stays (precommit_event 3) tt (
    Climbs.stays (precommit_event 2) tt (
      Climbs.stays (precommit_event 1) tt (
        Climbs.enters status_event status_4 5 (LeadsTo.by_status 0 refl) status_4-Enters
          Climbs.start)))

received_counts :
    ((check_precommit_count received).0 ≡ ok PrecommitRes.proposal)
    × (received.authority_manage.authorities ≡ nodes)
    × (received.height ≡ 5)
unfolding handle_event process process_vote on_precommit handle_vote item_signed_vote item_vote
    signed_vote_item vote_item decode encode bytes_item item_bytes vote_type_from_u8 log
    check_and_save_vote check_voter store_vote votes_add get_vote_weight check_precommit_count
    count_rounds count_round cal_above_threshold get_total_weight sum64 votes_get set_polc
    Votes.get_voteset Votes.add_vote Votes.add_round VoteSet.add_step VoteSet.add ◌>>=◌
    check_and_save_status handle_status set_status goto_new_height clean_save_info clean_filter
    flush_cache fetch_proposal proposals_get Proposals.get_proposal fetch_votes new_round_start
    is_proposer get_proposer get_index change_to_step set_timer propose_timeout transmit_proposal
    receive_authorities_list sort_nodes Votes.clear_vote_count
received_counts = (refl, refl, refl)

-- The node 2.
abbrev second_own : Own
second_own = record {
  sign = λ h. some (2 ∷ []);
  check_block = λ b h p hr l a. none;
  rand_vec = λ n len. [];
}

abbrev second : Env
second = peer sample second_own

second-LruLaws : LruLaws second
second-LruLaws = record {
  capacity = sample-LruLaws.capacity;
  capacity_new = sample-LruLaws.capacity_new;
  capacity_insert = sample-LruLaws.capacity_insert;
  capacity_write = sample-LruLaws.capacity_write;
  capacity_remove = sample-LruLaws.capacity_remove;
  peek_new = sample-LruLaws.peek_new;
  contains = sample-LruLaws.contains;
  peek_write = sample-LruLaws.peek_write;
  peek_insert_self = sample-LruLaws.peek_insert_self;
  peek_insert_other = sample-LruLaws.peek_insert_other;
  removed = sample-LruLaws.removed;
  peek_remove = sample-LruLaws.peek_remove;
}

abbrev second_at_5 : Bft ⦃env = second⦄
second_at_5 =
    record (bft_new ⦃env = second⦄ (2 ∷ []) 0
      (record { files = []; index = none; height_fs = []; current_height = 5 })) {
        height = 5;
        consensus_power = true;
        authority_manage = record {
          authorities = nodes;
          authorities_old = [];
          authority_h_old = 0;
        };
      }

second_at_5-TalliedUnder : TalliedUnder ⦃env = second⦄ second-LruLaws second_at_5
unfolding Votes.get_voteset
second_at_5-TalliedUnder = (
  (λ round kind set found. absurd (ground (arith, found))),
  record { present = refl; distinct = (refl, (refl, (refl, (refl, tt)))); fits = omega arith },
  collector_new-HasRoom ⦃env = second⦄ second-LruLaws,
)

-- Precommits for the block hash 8.
abbrev precommit_8 : ℕ → SignedVote
precommit_8 a =
    let v = vote_by VoteType.precommit a in
    record v { vote = record v.vote { block_hash = 8 ∷ [] } }

abbrev event_8 : ℕ → Event ⦃env = second⦄
event_8 a = message 0 (BftMsg.vote (encode (signed_vote_item ⦃env = second⦄ (precommit_8 a))))

abbrev after_8 : ℕ → Bft ⦃env = second⦄ → Bft ⦃env = second⦄
after_8 a s = (handle_event ⦃env = second⦄ (event_8 a) s).1

abbrev received_8 : Bft ⦃env = second⦄
received_8 = after_8 3 (after_8 2 (after_8 1 second_at_5))

received_8_run : Climbs ⦃env = second⦄ second_at_5 received_8
received_8_run =
    Climbs.stays (event_8 3) tt
      (Climbs.stays (event_8 2) tt (Climbs.stays (event_8 1) tt Climbs.start))

second_at_5-IsSound : IsSound ⦃env = second⦄ second-LruLaws second_at_5
second_at_5-IsSound = record {
  justified = (second_at_5-TalliedUnder, λ lock locked. absurd (ground (arith, locked)));
  pos = omega arith;
  small = omega arith;
}

received_8_counts :
    ((check_precommit_count ⦃env = second⦄ received_8).0 ≡ ok PrecommitRes.proposal)
    × (received_8.authority_manage.authorities ≡ nodes)
    × (received_8.height ≡ 5)
unfolding handle_event process process_vote on_precommit handle_vote item_signed_vote item_vote
    signed_vote_item vote_item decode encode bytes_item item_bytes vote_type_from_u8 log
    check_and_save_vote check_voter store_vote votes_add get_vote_weight check_precommit_count
    count_rounds count_round cal_above_threshold get_total_weight sum64 votes_get set_polc
    Votes.get_voteset Votes.add_vote Votes.add_round VoteSet.add_step VoteSet.add ◌>>=◌
received_8_counts = (refl, refl, refl)

Climbs-LockIsJustified_example : LockIsJustified received
Climbs-LockIsJustified_example =
    Climbs-LockIsJustified sample-LruLaws at_height_3 received at_height_3-IsSound received_run

Climbs-AgreeOrFork_example :
    let u = (check_precommit_count received).1 in
    let u' = (check_precommit_count ⦃env = second⦄ received_8).1 in
    (lock : LockStatus) × (lock' : LockStatus) × (u.lock_status ≡ some lock)
    × (u'.lock_status ≡ some lock')
    × AgreeOrFork received.authority_manage.authorities
        (generate_proof u lock)
        (generate_proof ⦃env = second⦄ u' lock')
Climbs-AgreeOrFork_example =
    Climbs-AgreeOrFork sample second_own sample-LruLaws second-LruLaws at_height_3 received
      second_at_5 received_8 at_height_3-IsSound second_at_5-IsSound received_run received_8_run
      (received_counts.2 ∙ sym received_8_counts.2) (received_counts.1 ∙ sym received_8_counts.1)
      (rw received_counts.1 (omega arith)) received_counts.0 received_8_counts.0

-- The node 1 at height 3, locked on a block, with votes of height 5 in its cache of which nothing was
-- checked: of somebody who is no authority, and of an authority without its signature.
abbrev stale_vote : ℕ → ℕ → SignedVote
stale_vote voter signature =
    let v = vote_by VoteType.precommit voter in record v { signature = signature ∷ [] }

abbrev votes_one : Votes.VoteCollector
votes_one = (Votes.add_vote (stale_vote 9 9) 1 3 at_height_3.votes).1

abbrev stale : Bft
stale = record at_height_3 {
  lock_status = some (record { block_hash = 7 ∷ []; round = 0; votes = [] });
  block_hash = some (7 ∷ []);
  votes = (Votes.add_vote (stale_vote 2 9) 1 3 votes_one).1;
}

-- They would be counted at height 5.
stale_votes : is_some (Votes.get_voteset 5 0 VoteType.precommit stale.votes).0 ≡ true
unfolding Votes.get_voteset Votes.add_vote Votes.add_round VoteSet.add_step VoteSet.add
stale_votes = refl

stale-HasRoom : HasRoom sample-LruLaws stale.votes
stale-HasRoom =
    (add_vote-get_voteset sample-LruLaws (stale_vote 2 9) 1 3 votes_one
      (add_vote-get_voteset sample-LruLaws (stale_vote 9 9) 1 3 at_height_3.votes
        (collector_new-HasRoom sample-LruLaws)).3).3

stale-Enters : Enters stale status_4 5
stale-Enters = record {
  distinct = status_4-Enters.distinct;
  fits = status_4-Enters.fits;
  pos = status_4-Enters.pos;
  later = status_4-Enters.later;
  not_old = status_4-Enters.not_old;
  block = status_4-Enters.block;
}

handle_event-IsEntered_example :
    IsEntered sample-LruLaws status_4 5 (handle_event status_event stale).1
handle_event-IsEntered_example =
    handle_event-IsEntered sample-LruLaws stale status_event status_4 5 (omega arith)
      (LeadsTo.by_status 0 refl) stale-HasRoom stale-Enters
