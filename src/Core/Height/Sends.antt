-- ===== src/Core/Height/Sends.antt =====
-- The height and the lock under the methods that send.
use bft_rs.Prelude.{
  BftError, ok, is_none, ◌∙◌, arith, ℕ, ◌≡◌, refl, Bool, true, false, Option, none, some,
}
use bft_rs.Objects.{Step, Hash, VoteType, Vote, Proposal, LockStatus}
use bft_rs.Env.{Env}
use bft_rs.Machine.State.{Bft}
use bft_rs.Machine.Monad.{modify, when, done, unwrap, raise, ◌>>◌, ◌>>=◌}
use bft_rs.Machine.Monad.Keeps.{Keeps, keeps_rules, Keeps-modify, Keeps-both}
use bft_rs.Machine.Monad.Reads.{
  bind-at, bind-get, if-at, bind-passed, bind-read, unwrap-reads, modify-at,
}
use bft_rs.Machine.Access.{set_timer}
use bft_rs.Core.Byzantine.{
  build_signed_proposal_encode, build_signed_vote, get_rand_vec, send_byzantine_proposal,
  send_byzantine_vote, transmit_byzantine_prevote, transmit_byzantine_precommit,
  transmit_byzantine_proposal,
}
use bft_rs.Core.Transmit.{
  transmit_prevote, transmit_precommit, is_proposer, retransmit_lower_votes,
  retransmit_nil_precommit, locked_proposal, feed_proposal, own_proposal, transmit_proposal,
  new_round_start,
}
use bft_rs.Core.Height.{
  Frame, Free, access_rules, votes_get-Keeps, save_vote-Keeps, check_vote-Keeps,
}

module _ ⦃env : Env⦄ {P : Bft → Type 0} (frame : Frame P) where
  build_signed_proposal_encode-Keeps : (p : Proposal) → Keeps P (build_signed_proposal_encode p)
  unfolding build_signed_proposal_encode
  build_signed_proposal_encode-Keeps p = search (keeps_rules, access_rules) depth 12

  build_signed_vote-Keeps : (v : Vote) → Keeps P (build_signed_vote v)
  unfolding build_signed_vote
  build_signed_vote-Keeps v = search (keeps_rules) depth 12

  get_rand_vec-Keeps : Keeps P get_rand_vec
  unfolding get_rand_vec
  get_rand_vec-Keeps = record { at = λ s k. frame.move _ _ refl refl refl refl refl refl k }

  ruleset build_rules =
      (build_signed_proposal_encode-Keeps, build_signed_vote-Keeps, get_rand_vec-Keeps)

  send_byzantine_vote-Keeps : (t : VoteType) → Keeps P (send_byzantine_vote t)
  unfolding send_byzantine_vote
  send_byzantine_vote-Keeps t = search (keeps_rules, frame.move, access_rules, build_rules) depth 12

  byzantine_prevote-Keeps : (b : Bool) → Keeps P (transmit_byzantine_prevote b)
  unfolding transmit_byzantine_prevote
  byzantine_prevote-Keeps b = search (keeps_rules, access_rules, send_byzantine_vote-Keeps) depth 12

  byzantine_precommit-Keeps : (b : Bool) → Keeps P (transmit_byzantine_precommit b)
  unfolding transmit_byzantine_precommit
  byzantine_precommit-Keeps b =
      search (keeps_rules, access_rules, send_byzantine_vote-Keeps) depth 12

module _ ⦃env : Env⦄ {P : Bft → Type 0} (frame : Frame P) where
  -- A corrupt node under the condition.
  abbrev Corrupt : Bft → Type 0
  Corrupt s = (s.is_byzantine ≡ true) × P s

  byzantine : Free (λ (s : Bft). s.is_byzantine ≡ true)
  byzantine = record { move = λ s s' h b l k at. b ∙ at }

  corrupt : Frame Corrupt
  corrupt = record {
    move = λ s s' h b m v l k at. (b ∙ at.0, frame.move s s' h b m v l k at.1);
    unlocks = λ s s' h b m v l at. (b ∙ at.0, frame.unlocks s s' h b m v l at.1);
    corrupts = λ s s' h b m v l at. (b, frame.corrupts s s' h b m v l at.1);
    reads = λ h r t. Keeps-both _ (votes_get-Keeps byzantine h r t) (frame.reads h r t);
    stores = λ v w. Keeps-both _ (save_vote-Keeps byzantine v w) (frame.stores v w);
    vets =
        λ h r hash v. Keeps-both _ (check_vote-Keeps byzantine h r hash v) (frame.vets h r hash v);
  }

  send_byzantine_proposal-Keeps : Keeps Corrupt send_byzantine_proposal
  unfolding send_byzantine_proposal
  send_byzantine_proposal-Keeps =
      let other : (s : Bft) (h : Hash) → Corrupt s → Corrupt (record s { block_hash = some h }) =
        λ s h at. corrupt.corrupts s _ refl at.0 refl refl refl at in
      search (keeps_rules, corrupt.move, other, corrupt, access_rules, build_rules) depth 12

  byzantine_proposal-Keeps : Keeps Corrupt transmit_byzantine_proposal
  unfolding transmit_byzantine_proposal
  byzantine_proposal-Keeps =
      search
        (keeps_rules, corrupt, access_rules, send_byzantine_proposal-Keeps, byzantine_prevote-Keeps)
        depth 12

  pub transmit_prevote-Keeps : (b : Bool) → Keeps P (transmit_prevote b)
  unfolding transmit_prevote
  transmit_prevote-Keeps b =
      search (keeps_rules, frame.move, access_rules, build_rules, byzantine_prevote-Keeps) depth 12

  -- A node that is not locked forgets its block.
  pub forget-at :
      (s : Bft)
      → P s
      → P (when (is_none s.lock_status) (modify (λ t. record t { block_hash = none })) s).1
  forget-at s h =
      if-at P (is_none s.lock_status) _ done s
        (λ e.
          let free : s.lock_status ≡ none = ground arith in
          let forgets : Keeps (λ t. (t.lock_status ≡ none) × P t)
              (modify (λ t. record t { block_hash = none })) =
            Keeps-modify _ λ t k. (k.0, frame.unlocks t _ refl refl refl refl k.0 k.1) in
          (forgets.at s (free, h)).1)
        (λ e. let stays : Keeps P done = search (keeps_rules) in stays.at s h)

  pub transmit_precommit-Keeps : (b : Bool) → Keeps P (transmit_precommit b)
  unfolding transmit_precommit
  transmit_precommit-Keeps b = record {
    at = λ s h. bind-get P _ s (
        if-at P s.is_byzantine _ _ s (λ e. (byzantine_precommit-Keeps frame b).at s h)
          (λ e.
            bind-at {P = P} _ _ s (forget-at s h)
              (λ u. search (keeps_rules, frame.move, access_rules, build_rules) depth 12)));
  }

  pub lower_votes-Keeps : (r : ℕ) → Keeps P (retransmit_lower_votes r)
  unfolding retransmit_lower_votes
  lower_votes-Keeps r = search (keeps_rules, frame.move, access_rules, build_rules) depth 12

  pub nil_precommit-Keeps : (v : Vote) → Keeps P (retransmit_nil_precommit v)
  unfolding retransmit_nil_precommit
  nil_precommit-Keeps v = search (keeps_rules, frame.move, access_rules, build_rules) depth 12

  locked-Keeps : (s : Bft) (lock : LockStatus) → Keeps P (locked_proposal s lock)
  unfolding locked_proposal
  locked-Keeps s lock = search (keeps_rules, frame, access_rules, build_rules) depth 12

  feed-at : (s : Bft) → s.lock_status ≡ none → P s → P (feed_proposal s s).1
  unfolding feed_proposal
  feed-at s free h = bind-read P (unwrap s.feed) _ s (unwrap-reads s.feed s) h λ hash e.
      bind-at {P = P} (modify (λ t. record t { block_hash = some hash })) _ s
        (modify-at P (λ t. record t { block_hash = some hash }) s
          (frame.unlocks s _ refl refl refl refl free h))
        (λ u. build_signed_proposal_encode-Keeps frame _)

  -- The proposal of a locked node, and that of a node without a lock, from one state.
  own_proposal-at :
      (s : Bft) (l : Option LockStatus) → s.lock_status ≡ l → P s → P (own_proposal s l s).1
  own_proposal-at s none free h = feed-at s free h
  own_proposal-at s (some lock) held h = (locked-Keeps s lock).at s h

  -- A wait that is passed leaves the state.
  passed :
      (b : Bool) (n : ℕ) (step : Step) (e : BftError) (s : Bft) (u : Unit {0})
      → (when b (set_timer n step >> raise e) s).0 ≡ ok u
      → (when b (set_timer n step >> raise {A = Unit {0}} e) s).1 ≡ s
  unfolding set_timer ◌>>=◌
  passed true n step e s u h = cc
  passed false n step e s u h = refl

  waits-Keeps :
      (b : Bool) (n : ℕ) (step : Step) (e : BftError)
      → Keeps P (when b (set_timer n step >> raise {A = Unit {0}} e))
  waits-Keeps b n step e = search (keeps_rules, frame, access_rules) depth 12

  transmit_proposal-Keeps : Keeps P transmit_proposal
  unfolding transmit_proposal
  transmit_proposal-Keeps = record {
    at = λ s h. bind-get P _ s (
        if-at P s.is_byzantine _ _ s (λ e. (byzantine_proposal-Keeps.at s (e, h)).1)
          (λ e.
            bind-passed P _ _ s ((waits-Keeps _ _ _ _).at s h) (λ u. passed _ _ _ _ s u)
              (λ u.
                bind-at {P = P} _ _ s (own_proposal-at s s.lock_status refl h)
                  (λ encode. search (keeps_rules, frame.move, frame, access_rules) depth 12))));
  }

  is_proposer-Keeps : Keeps P is_proposer
  unfolding is_proposer
  is_proposer-Keeps = search (keeps_rules, access_rules) depth 12

  pub new_round_start-Keeps : (b : Bool) → Keeps P (new_round_start b)
  unfolding new_round_start
  new_round_start-Keeps b =
      search
        (
          keeps_rules, frame.move, access_rules, is_proposer-Keeps, transmit_proposal-Keeps,
          transmit_prevote-Keeps,
        )
        depth 12
