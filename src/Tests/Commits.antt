-- ===== src/Tests/Commits.antt =====
-- Three precommits that are stored and counted, and the proof that is made of them.
use bft_rs.Prelude.{ℕ, ◌<◌, ◌≡◌, refl, true, false, none, some, [], ◌∷◌, ok, arith, add64}
use bft_rs.Objects.{BftMsg, SignedProposal, VoteType, PrecommitRes, LockStatus, SignedVote}
use bft_rs.Weight.{sum64, get_total_weight}
use bft_rs.Collect.Cache.{KeptOrLost}
use bft_rs.Collect.VoteSet
use bft_rs.Collect.Votes
use bft_rs.Collect.Votes.View.{HasRoom, or_new}
use bft_rs.Collect.Votes.Refines.{is_for, add_vote-get_voteset, collector_new-HasRoom}
use bft_rs.Checks.{check_proof, check_voter}
use bft_rs.Checks.Save.{check_and_save_vote, store_vote}
use bft_rs.Machine.State.{Bft}
use bft_rs.Machine.Monad.{◌>>=◌}
use bft_rs.Machine.Access.{
  proposals_get, blocks_get, set_proof, change_to_step, log, cal_above_threshold, votes_get,
  votes_add, set_polc, get_vote_weight, generate_proof,
}
use bft_rs.Core.Counting.{count_round, count_rounds, check_precommit_count}
use bft_rs.Core.Commits.{check_precommit_count-accepted}
use bft_rs.Core.Commits.Stored.{AllTallied, HasAuthorities}
use bft_rs.Core.Commits.Invariant.{TalliedUnder, check_and_save_vote-AllTallied}
use bft_rs.Core.Entry.Climbs.{Climbs, IsSound}
use bft_rs.Core.Entry.Safety.{Climbs-handle_precommit}
use bft_rs.Core.Handlers.{handle_vote, handle_precommit, handle_commit}
use bft_rs.Core.Commits.Spawns.{CommitsOrFails}
use bft_rs.Collect.Proposals
use bft_rs.Collect.Blocks
use bft_rs.Core.Process.{process, process_vote, on_precommit}
use bft_rs.Core.Replay.{Event, message, handle_event}
use bft_rs.Codec.{signed_vote_item, item_signed_vote, vote_item, item_vote}
use bft_rs.Codec.Items.{bytes_item, item_bytes}
use bft_rs.Objects.Kinds.{vote_type_from_u8}
use bft_rs.Tests.Sample.Rlp.{encode, decode}
use bft_rs.Tests.Sample.{sample, sample-LruLaws, nodes, vote_by, proof_for, at_height_5}

abbrev pub precommit_by : ℕ → SignedVote
precommit_by = vote_by VoteType.precommit

pub at_height_5-HasAuthorities : HasAuthorities at_height_5
at_height_5-HasAuthorities = record {
  present = refl;
  distinct = (refl, (refl, (refl, (refl, tt))));
  fits = omega arith;
}

pub at_height_5-HasRoom : HasRoom sample-LruLaws at_height_5.votes
at_height_5-HasRoom = collector_new-HasRoom sample-LruLaws

pub at_height_5-AllTallied : AllTallied at_height_5
unfolding Votes.get_voteset
at_height_5-AllTallied round kind set found = absurd (ground (arith, found))

check_and_save_vote-AllTallied_example :
    let s' = (check_and_save_vote (precommit_by 1) false at_height_5).1 in
    AllTallied s' × HasAuthorities s' × HasRoom sample-LruLaws s'.votes
check_and_save_vote-AllTallied_example =
    check_and_save_vote-AllTallied sample-LruLaws (precommit_by 1) false at_height_5
      at_height_5-HasAuthorities at_height_5-HasRoom at_height_5-AllTallied

-- The node after it has stored precommits of the authorities 1, 2 and 3.
abbrev stored : ℕ → Bft → Bft
stored a s = (check_and_save_vote (precommit_by a) false s).1

abbrev committing : Bft
committing = stored 3 (stored 2 (stored 1 at_height_5))

committing-AllTallied : AllTallied committing
committing-AllTallied =
    let (t, r, m) =
      check_and_save_vote-AllTallied sample-LruLaws (precommit_by 1) false at_height_5
        at_height_5-HasAuthorities at_height_5-HasRoom at_height_5-AllTallied in
    let (t', r', m') =
      check_and_save_vote-AllTallied sample-LruLaws (precommit_by 2) false (stored 1 at_height_5) r
        m t in
    (check_and_save_vote-AllTallied sample-LruLaws (precommit_by 3) false
      (stored 2 (stored 1 at_height_5)) r' m' t').0

committing_counts : (check_precommit_count committing).0 ≡ ok PrecommitRes.proposal
unfolding check_and_save_vote check_voter store_vote votes_add get_vote_weight check_precommit_count
    count_rounds count_round cal_above_threshold get_total_weight sum64 votes_get set_polc
    Votes.get_voteset Votes.add_vote Votes.add_round VoteSet.add_step VoteSet.add ◌>>=◌
committing_counts = refl

committing_stays : (0 < committing.height) × (committing.authority_manage.authorities ≡ nodes)
unfolding check_and_save_vote check_voter store_vote votes_add get_vote_weight Votes.add_vote
    Votes.add_round VoteSet.add_step VoteSet.add ◌>>=◌
committing_stays = (omega arith, refl)

check_precommit_count-accepted_example :
    let s' = (check_precommit_count committing).1 in
    (lock : LockStatus) × (s'.lock_status ≡ some lock)
    × (check_proof
          (generate_proof s' lock)
          (add64 s'.height 1)
          committing.authority_manage.authorities
        ≡ true)
check_precommit_count-accepted_example =
    check_precommit_count-accepted committing committing_stays.0
      (rw committing_stays.1 (omega arith))
      (λ round set found. committing-AllTallied round VoteType.precommit set found)
      committing_counts

add_vote-get_voteset_example :
    let v = precommit_by 1 in
    let c = at_height_5.votes in
    let c' = (Votes.add_vote v 1 5 c).1 in
    let set : VoteSet.VoteSet = or_new (Votes.get_voteset 5 0 VoteType.precommit c).0 in
    ((Votes.add_vote v 1 5 c).0 ≡ (VoteSet.add v 1 set).0)
    × ((Votes.get_voteset 5 0 VoteType.precommit c').0 ≡ some (VoteSet.add v 1 set).1)
    × ((height round : ℕ) (t : VoteType)
        → is_for v height round t ≡ false
        → KeptOrLost (Votes.get_voteset height round t c).0 (Votes.get_voteset height round t c').0)
    × HasRoom sample-LruLaws c'
add_vote-get_voteset_example =
    add_vote-get_voteset sample-LruLaws (precommit_by 1) 1 5 at_height_5.votes at_height_5-HasRoom

-- The events that bring the precommits of the authorities 1, 2 and 3 as messages.
abbrev pub precommit_event : ℕ → Event
precommit_event a = message 0 (BftMsg.vote (encode (signed_vote_item (precommit_by a))))

abbrev after_event : ℕ → Bft → Bft
after_event a s = (handle_event (precommit_event a) s).1

-- A proposal of the round 0 for the block hash that they are for.
abbrev proposed_7 : SignedProposal
proposed_7 = record {
  proposal = record {
    height = 5;
    round = 0;
    block_hash = 7 ∷ [];
    proof = proof_for (6 ∷ []);
    lock_round = none;
    lock_votes = [];
    proposer = 1 ∷ [];
  };
  signature = 1 ∷ [];
}

-- The node with this proposal and its block in the caches.
abbrev with_block : Bft
with_block = record at_height_5 {
  proposals = (Proposals.add proposed_7 at_height_5.proposals).1;
  blocks = (Blocks.add 5 (7 ∷ []) (8 ∷ []) at_height_5.blocks).1;
}

with_block-TalliedUnder : TalliedUnder sample-LruLaws with_block
with_block-TalliedUnder = (
  at_height_5-AllTallied,
  record { present = refl; distinct = at_height_5-HasAuthorities.distinct; fits = omega arith },
  at_height_5-HasRoom,
)

abbrev received : Bft
received = after_event 3 (after_event 2 (after_event 1 with_block))

received_run : Climbs with_block received
received_run =
    Climbs.stays (precommit_event 3) tt
      (Climbs.stays (precommit_event 2) tt (Climbs.stays (precommit_event 1) tt Climbs.start))

with_block-IsSound : IsSound sample-LruLaws with_block
with_block-IsSound = record {
  justified = (with_block-TalliedUnder, λ lock locked. absurd (ground (arith, locked)));
  pos = omega arith;
  small = omega arith;
}

received_counts : (check_precommit_count received).0 ≡ ok PrecommitRes.proposal
unfolding handle_event process process_vote on_precommit handle_vote item_signed_vote item_vote
    signed_vote_item vote_item decode encode bytes_item item_bytes vote_type_from_u8 log
    check_and_save_vote check_voter store_vote votes_add get_vote_weight check_precommit_count
    count_rounds count_round cal_above_threshold get_total_weight sum64 votes_get set_polc
    Votes.get_voteset Votes.add_vote Votes.add_round VoteSet.add_step VoteSet.add ◌>>=◌
received_counts = refl

-- It is spawned here.
received_commits : (handle_precommit received).0 ≡ ok tt
unfolding handle_event process process_vote on_precommit handle_vote item_signed_vote item_vote
    signed_vote_item vote_item decode encode bytes_item item_bytes vote_type_from_u8 log
    check_and_save_vote check_voter store_vote votes_add get_vote_weight check_precommit_count
    count_rounds count_round cal_above_threshold get_total_weight sum64 votes_get set_polc
    Votes.get_voteset Votes.add_vote Votes.add_round VoteSet.add_step VoteSet.add ◌>>=◌
    handle_precommit handle_commit change_to_step generate_proof proposals_get blocks_get set_proof
    Proposals.add Proposals.get_proposal Blocks.add Blocks.get_block Blocks.add_set
received_commits = refl

Climbs-handle_precommit_example : CommitsOrFails received
Climbs-handle_precommit_example =
    Climbs-handle_precommit sample-LruLaws with_block received with_block-IsSound received_run
      received_counts
