-- ===== src/Core/Height/Events.antt =====
-- The height and the lock under a message, a timeout and a status.
use bft_rs.Prelude.{
  ℕ, ◌≤◌, ◌≡◌, refl, ◌⊎◌, Bool, false, none, some, arith, ◌∙◌, inl, inr, add64, leb, ltb,
  if◌then◌else◌, obsolete_msg, Bool-cases,
}
use bft_rs.Objects.{BftMsg, Status, Step}
use bft_rs.Objects.Kinds.{step_eq}
use bft_rs.Env.{Env}
use bft_rs.Machine.State.{Bft}
use bft_rs.Machine.Monad.{raise, modify, when, done, ◌>>=◌}
use bft_rs.Machine.Monad.Keeps.{
  Keeps, keeps_rules, Keeps-unwrap, Keeps-modify, Keeps-bind, Keeps-if, Keeps-raise, Keeps-get-bind,
}
use bft_rs.Machine.Access.{clean_save_info, clean_filter}
use bft_rs.Core.Rounds.{goto_new_height}
use bft_rs.Core.Handlers.{handle_status, accept_status, enter_height, wait_interval}
use bft_rs.Core.Process.{process, on_timeout, timeout_commit_wait}
use bft_rs.Core.Height.{Frame, Locks, Free, frame_of, set_status-Keeps, access_rules}
use bft_rs.Core.Height.Sends.{
  transmit_prevote-Keeps, transmit_precommit-Keeps, new_round_start-Keeps,
}
use bft_rs.Core.Height.Checks.{next_round-Keeps, flush_cache-Keeps, save_feed-Keeps}
use bft_rs.Core.Height.Handlers.{handle_commit-Keeps}
use bft_rs.Core.Height.Messages.{
  Locking, process_proposal-Keeps, process_vote-Keeps, process_resp-Keeps, prevote_wait-Keeps,
  verify_wait-Keeps,
}

module _ ⦃env : Env⦄ {P : Bft → Type 0} (frame : Frame P) where
  -- The way to another height leads to any condition of that height without a lock.
  pub enter_height-Keeps :
      Free P
      → (status : Status) (h : ℕ) → ((s : Bft) → s.height ≡ h → s.lock_status ≡ none → P s)
      → Keeps P (enter_height status h)
  unfolding goto_new_height clean_save_info clean_filter ◌>>=◌
  enter_height-Keeps free status h there =
      search
        (
          keeps_rules, frame, free, there, set_status-Keeps, access_rules, flush_cache-Keeps,
          new_round_start-Keeps,
        )
        depth 12

  pub accept-Keeps :
      Free P
      → (status : Status) (s : Bft)
      → ((t : Bft) → t.height ≡ add64 status.height 1 → t.lock_status ≡ none → P t)
      → Keeps P (accept_status status s)
  accept-Keeps free status s there =
      let enter = enter_height-Keeps free status (add64 status.height 1) there in
      let keep : (t : Bft) → P t → P (record t { status = some status }) =
        λ t at. frame.move _ _ refl refl refl refl refl refl at in
      let waits : Keeps P (wait_interval s) = search (keeps_rules, access_rules) depth 12 in
      let clears : Keeps P
          (modify (λ t. record t { last_commit_block_hash = none; last_commit_round = none })) =
        search (keeps_rules, frame.move) in
      let resets : Keeps P (
          when (ltb s.height status.height)
            (modify (λ t. record t { last_commit_block_hash = none; last_commit_round = none }))) =
        Keeps-if (ltb s.height status.height) _ done clears (search (keeps_rules)) in
      let moves = Keeps-bind _ _ resets (λ _. enter) in
      Keeps-bind _ _ (Keeps-modify _ keep) (λ _. Keeps-if _ _ _ waits moves)

-- A message that is neither a status nor a reset.
abbrev pub IsPlain : BftMsg → Type 0
IsPlain (BftMsg.status status) = ⊥
IsPlain (BftMsg.clear proof) = ⊥
IsPlain _ = Unit

module _ ⦃env : Env⦄ where
  -- The height is `h` yet.
  abbrev pub Stays : ℕ → Bft → Type 0
  Stays h s = s.height ≡ h

  pub Stays-Free : (h : ℕ) → Free (Stays h)
  Stays-Free h = record { move = λ s s' same b l k at. same ∙ at }

  pub stays : (h : ℕ) → Frame (Stays h)
  stays h = frame_of (Stays-Free h) (λ s s' same b l at. same ∙ at) (λ s s' same b l at. same ∙ at)

  pub Stays-Locks : (h : ℕ) → Locks (Stays h)
  Stays-Locks h s s' lock same b m v l k at = same ∙ at

  -- The height is still `h`, or it is `h'` under a condition.
  abbrev pub Moved : ℕ → Type 0 → ℕ → Bft → Type 0
  Moved h c h' s = (s.height ≡ h) ⊎ (c × (s.height ≡ h'))

  along :
      (h : ℕ) (c : Type 0) (h' : ℕ) (s s' : Bft)
      → s'.height ≡ s.height
      → Moved h c h' s
      → Moved h c h' s'
  along h c h' s s' same (inl e) = inl (same ∙ e)
  along h c h' s s' same (inr (k, e)) = inr (k, same ∙ e)

  Moved-Free : (h : ℕ) (c : Type 0) (h' : ℕ) → Free (Moved h c h')
  Moved-Free h c h' = record { move = λ s s' same b l k at. along h c h' s s' same at }

  pub moved : (h : ℕ) (c : Type 0) (h' : ℕ) → Frame (Moved h c h')
  moved h c h' =
      frame_of (Moved-Free h c h') (λ s s' same b l at. along h c h' s s' same at)
        (λ s s' same b l at. along h c h' s s' same at)

  pub handle_status-Keeps :
      (h : ℕ) (status : Status)
      → Keeps (Moved h (h ≤ status.height) (add64 status.height 1)) (handle_status status)
  unfolding handle_status
  handle_status-Keeps h status =
      let frame = moved h (h ≤ status.height) (add64 status.height 1) in
      let tail : (s : Bft)
          → Moved h (h ≤ status.height) (add64 status.height 1) s
          → Keeps (Moved h (h ≤ status.height) (add64 status.height 1))
              (if leb s.height status.height then accept_status status s else raise obsolete_msg) =
        λ s at. elim (Bool-cases (leb s.height status.height)) [
          | inl le ↦
              let bound : h ≤ status.height = ground arith in
              rw le (
                accept-Keeps frame (Moved-Free h (h ≤ status.height) (add64 status.height 1)) status
                  s (λ t e l. inr (bound, e)))
          | inr gt ↦ rw gt (Keeps-raise obsolete_msg)
        ] in
      Keeps-bind _ _ (search (keeps_rules))
        λ s₀. Keeps-bind _ _ (search (keeps_rules, handle_commit-Keeps)) λ _. Keeps-get-bind _ tail

  pub process-Keeps :
      {P : Bft → Type 0} (frame : Frame P) (locking : Locking P) (m : BftMsg) (w : Bool)
      → IsPlain m
      → Keeps P (process m w)
  unfolding process
  process-Keeps frame locking (BftMsg.proposal e) w plain =
      search (keeps_rules, frame, locking, process_proposal-Keeps)
  process-Keeps frame locking (BftMsg.vote e) w plain =
      search (keeps_rules, frame, locking, process_vote-Keeps)
  process-Keeps frame locking (BftMsg.feed f) w plain =
      search (keeps_rules, save_feed-Keeps, new_round_start-Keeps) depth 12
  process-Keeps frame locking (BftMsg.status t) w plain = absurd plain
  process-Keeps frame locking (BftMsg.verify_resp r) w plain =
      search (keeps_rules, process_resp-Keeps)
  process-Keeps frame locking BftMsg.pause w plain = search (keeps_rules, frame.move)
  process-Keeps frame locking BftMsg.start w plain = search (keeps_rules, frame.move)
  process-Keeps frame locking (BftMsg.clear p) w plain = absurd plain
  process-Keeps frame locking BftMsg.corrupt w plain =
      Keeps-modify _ λ s h. frame.corrupts s _ refl refl refl refl refl h
  process-Keeps frame locking BftMsg.kill w plain = search (keeps_rules)

  pub timeout-Keeps :
      {P : Bft → Type 0} (frame : Frame P) (t : Step)
      → step_eq.beq t Step.commit_wait ≡ false
      → Keeps P (on_timeout t)
  unfolding on_timeout
  timeout-Keeps frame Step.propose other = search (keeps_rules)
  timeout-Keeps frame Step.propose_wait other =
      search (keeps_rules, access_rules, transmit_prevote-Keeps)
  timeout-Keeps frame Step.prevote other = search (transmit_prevote-Keeps)
  timeout-Keeps frame Step.prevote_wait other = search (prevote_wait-Keeps)
  timeout-Keeps frame Step.verify_wait other = search (keeps_rules, verify_wait-Keeps)
  timeout-Keeps frame Step.precommit other =
      search (keeps_rules, transmit_prevote-Keeps, transmit_precommit-Keeps)
  timeout-Keeps frame Step.precommit_wait other =
      search (keeps_rules, next_round-Keeps, new_round_start-Keeps)
  timeout-Keeps frame Step.commit other = search (keeps_rules)
  timeout-Keeps frame Step.commit_wait other = absurd (ground arith)

  pub commit_wait-leads :
      (h : ℕ) (s : Bft) → s.height ≡ h → Moved h Unit (add64 h 1) (timeout_commit_wait s).1
  unfolding timeout_commit_wait ◌>>=◌
  commit_wait-leads h s e =
      let frame = moved h Unit (add64 h 1) in
      let there : (t : Bft)
          → t.height ≡ add64 s.height 1
          → t.lock_status ≡ none
          → Moved h Unit (add64 h 1) t =
        λ t at l. inr (tt, rw e at at) in
      let enter : (status : Status)
          → Keeps (Moved h Unit (add64 h 1)) (enter_height status (add64 s.height 1)) =
        λ status.
          enter_height-Keeps frame (Moved-Free h Unit (add64 h 1)) status (add64 s.height 1)
            there in
      (Keeps-bind _ _ (Keeps-unwrap s.status) enter).at s (inl e)
