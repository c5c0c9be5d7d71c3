-- ===== src/Tests/Machine.antt =====
-- The state machine on concrete inputs.
use bft_rs.Prelude.{
  arith, ◌<◌, ℕ, ◌≤◌, ◌≡◌, refl, ◌⊎◌, true, false, none, some, List, [], ◌∷◌, ok, All,
}
use mathlib.Core.List.{Memᴰ}
use bft_rs.Objects.{
  Bytes, BftMsg, Status, VoteType, PrecommitRes, LockStatus, Proposal, Step, TimeoutInfo,
  proof_default,
}
use bft_rs.Weight.{sum64, get_total_weight}
use bft_rs.Collect.VoteSet
use bft_rs.Collect.Votes
use bft_rs.Machine.State.{Bft}
use bft_rs.Machine.Monad.{◌>>=◌}
use bft_rs.Machine.Access.{cal_above_threshold, votes_get, set_polc}
use bft_rs.Core.Counting.{count_round, count_rounds, check_precommit_count, lock_on}
use bft_rs.Core.Counting.Rounds.{count_rounds_lem}
use bft_rs.Core.Counting.Locks.{HasQuorumFor, lock_of, check_precommit_count-proposal}
use bft_rs.Core.Replay.{message, handle_event}
use bft_rs.Core.Height.Loop.{handle_event-MovesTo}
use bft_rs.Core.Height.Runs.{Run, Run-height}
use bft_rs.Core.Transmit.{transmit_prevote, transmit_precommit}
use bft_rs.Core.Transmit.Locked.{OnlyVotes, transmit_locked}
use bft_rs.Core.Rounds.{set_proposal}
use bft_rs.Core.Locking.{set_proposal_lock, lock_on_locked}
use bft_rs.Tests.Sample.{sample, nodes, vote_by, at_height_5}

-- Weight 3 of 4 at round 2.
abbrev counts : List (ℕ × ℕ)
counts = (1, 1) ∷ (2, 3) ∷ []

counted_round : (count_rounds (false, at_height_5) counts).1.round ≡ 2
unfolding count_rounds count_round cal_above_threshold get_total_weight sum64
counted_round = refl

count_rounds_lem_example :
    let (flag, s') = count_rounds (false, at_height_5) counts in
    (s' ≡ record at_height_5 { round = s'.round; round_filter = s'.round_filter })
    × (0 ≤ s'.round)
    × All (λ e. (cal_above_threshold at_height_5 e.1 ≡ false) ⊎ (e.0 ≤ s'.round)) counts
    × (((flag ≡ false) × (s' ≡ at_height_5))
        ⊎ ((flag ≡ true)
            × ((count : ℕ) × Memᴰ (s'.round, count) counts
                × (cal_above_threshold at_height_5 count ≡ true))))
count_rounds_lem_example = count_rounds_lem at_height_5 counts

abbrev precommit_by : ℕ → Bft → Bft
precommit_by a s = record s {
  votes = (Votes.add_vote (vote_by VoteType.precommit a) 1 5 s.votes).1;
}

-- The node at height 5 with three precommits of four.
abbrev precommitted : Bft
precommitted = precommit_by 3 (precommit_by 2 (precommit_by 1 at_height_5))

precommitted_count : (check_precommit_count precommitted).0 ≡ ok PrecommitRes.proposal
unfolding check_precommit_count count_rounds count_round cal_above_threshold get_total_weight sum64
    votes_get set_polc Votes.get_voteset Votes.add_vote Votes.add_round VoteSet.add_step VoteSet.add
    ◌>>=◌
precommitted_count = refl

check_precommit_count-proposal_example :
    let s' = (check_precommit_count precommitted).1 in
    (hash : Bytes) × (set : VoteSet.VoteSet) × HasQuorumFor precommitted VoteType.precommit s'.round
      hash set
    × (s'.lock_status ≡ some (lock_of s' hash set))
    × (s'.block_hash ≡ some hash)
    × (0 ≤ s'.round)
check_precommit_count-proposal_example =
    check_precommit_count-proposal precommitted precommitted_count

abbrev status_of_7 : Status
status_of_7 = record { height = 7; interval = none; authority_list = nodes }

handle_event-MovesTo_example :
    ((handle_event (message 1 (BftMsg.status status_of_7)) at_height_5).1.height ≡ 5)
    ⊎ ((5 ≤ 7) × ((handle_event (message 1 (BftMsg.status status_of_7)) at_height_5).1.height ≡ 8))
handle_event-MovesTo_example =
    handle_event-MovesTo (message 1 (BftMsg.status status_of_7)) at_height_5

Run-height_example :
    at_height_5.height ≤ (handle_event (message 1 (BftMsg.status status_of_7)) at_height_5).1.height
Run-height_example =
    Run-height (Run.event (message 1 (BftMsg.status status_of_7)) (omega arith) Run.start)

abbrev lock_on_7 : LockStatus
lock_on_7 = record { block_hash = 7 ∷ []; round = 0; votes = [] }

-- The node at height 5, locked on a block while it has another proposal.
abbrev locked_node : Bft
locked_node = record at_height_5 { lock_status = some lock_on_7; block_hash = some (8 ∷ []) }

transmit_locked_example :
    OnlyVotes locked_node (transmit_prevote false locked_node).1 VoteType.prevote (7 ∷ [])
    × OnlyVotes locked_node (transmit_precommit false locked_node).1 VoteType.precommit (7 ∷ [])
transmit_locked_example = transmit_locked false locked_node lock_on_7 refl refl

-- A proposal of round 1 that the prevotes of round 0 lock.
abbrev relock : Proposal
relock = record {
  height = 5;
  round = 1;
  block_hash = 9 ∷ [];
  proof = proof_default;
  lock_round = some 0;
  lock_votes = [];
  proposer = 1 ∷ [];
}

set_proposal_lock_example :
    let s' = (set_proposal relock locked_node).1 in
    (lock' : LockStatus) × (s'.lock_status ≡ some lock')
    × (0 ≤ lock'.round)
    × ((lock' ≡ lock_on_7)
        ⊎ ((s'.block_hash ≡ some (9 ∷ []))
            × (lock'.block_hash ≡ 9 ∷ [])
            × (some 0 ≡ some lock'.round)
            × (lock'.votes ≡ [])))
set_proposal_lock_example = set_proposal_lock relock locked_node lock_on_7 refl

-- The locked node in round 2.
abbrev later_node : Bft
later_node = record locked_node { round = 2 }

lock_on_locked_example :
    let s' = (lock_on [] VoteSet.new later_node).1 in
    ((2 ≤ 0) × (s' ≡ later_node))
    ⊎ ((0 < 2)
        × (((true ≡ true) × (s' ≡ record later_node { block_hash = none; lock_status = none }))
            ⊎ ((true ≡ false)
                × (s' ≡ record later_node {
                  block_hash = some [];
                  lock_status = some (lock_of later_node [] VoteSet.new);
                }))))
lock_on_locked_example = lock_on_locked [] VoteSet.new later_node lock_on_7 refl

-- The node at height 5, locked, in the step Prevote.
abbrev prevoting_node : Bft
prevoting_node = record at_height_5 {
  step = Step.prevote;
  block_hash = some (7 ∷ []);
  lock_status = some (record { block_hash = 7 ∷ []; round = 0; votes = [] });
}

-- The timeout that makes it send its prevote again.
abbrev prevote_timeout : TimeoutInfo
prevote_timeout = record { timestamp = 9; duration = 1; height = 5; round = 0; step = Step.prevote }
