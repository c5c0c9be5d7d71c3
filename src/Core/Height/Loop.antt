-- ===== src/Core/Height/Loop.antt =====
-- The height after one round of the main loop.
use bft_rs.Prelude.{
  ℕ, ◌≤◌, ◌≡◌, refl, ◌⊎◌, Bool, true, ◌&&◌, not, inl, inr, add64, Bool-cases, ◌==◌, obsolete_timer,
}
use bft_rs.Objects.{BftMsg, Status, Proof, Step, TimeoutInfo, LogType}
use bft_rs.Objects.Kinds.{step_eq}
use bft_rs.Env.{Env}
use bft_rs.Codec.{timeout_info_item}
use bft_rs.Machine.Access.{log}
use bft_rs.Machine.State.{Bft}
use bft_rs.Machine.Monad.{◌>>=◌, raise, when}
use bft_rs.Machine.Monad.Keeps.{Keeps, keeps_rules, Keeps-bind, Keeps-get, bind-leads}
use bft_rs.Core.Process.{process, timeout_process, on_timeout, is_obsolete}
use bft_rs.Core.Replay.{Event, message, timeout, handle_event}
use bft_rs.Core.Height.{Frame, access_rules}
use bft_rs.Core.Height.Checks.{save_status-Keeps}
use bft_rs.Core.Height.Messages.{Locking, locking_of}
use bft_rs.Core.Height.Events.{
  Moved, moved, Stays, stays, Stays-Locks, process-Keeps, timeout-Keeps, commit_wait-leads,
  handle_status-Keeps,
}

module _ ⦃env : Env⦄ where
  -- The height that an event leads to, from the one before it.
  abbrev pub MovesTo : Event → ℕ → ℕ → Type 0
  MovesTo (message now (BftMsg.status status)) h h' =
      (h' ≡ h) ⊎ ((h ≤ status.height) × (h' ≡ add64 status.height 1))
  MovesTo (message now (BftMsg.clear proof)) h h' = h' ≡ 0
  MovesTo (message now _) h h' = h' ≡ h
  MovesTo (timeout now t) h h' = (h' ≡ h) ⊎ ((t.step ≡ Step.commit_wait) × (h' ≡ add64 h 1))

  pub Stays-Locking : (h : ℕ) → Locking (Stays h)
  Stays-Locking h = locking_of (stays h) (Stays-Locks h)

  status-at :
      (status : Status) (w : Bool) (s : Bft)
      → Moved s.height
          (s.height ≤ status.height)
          (add64 status.height 1)
          (process (BftMsg.status status) w s).1
  unfolding process
  status-at status w s =
      let frame = moved s.height (s.height ≤ status.height) (add64 status.height 1) in
      (Keeps-bind _ _ (save_status-Keeps frame status w)
          (λ _. handle_status-Keeps s.height status)).at
        s (inl refl)

  clear-at : (proof : Proof) (w : Bool) (s : Bft) → (process (BftMsg.clear proof) w s).1.height ≡ 0
  unfolding process ◌>>=◌
  clear-at proof w s = refl

  vetted :
      {P : Bft → Type 0} (t : TimeoutInfo) (s : Bft)
      → Keeps P (when (is_obsolete t s) (raise obsolete_timer))
  vetted t s = search (keeps_rules)

  logged :
      {P : Bft → Type 0} (frame : Frame P) (t : TimeoutInfo) (w : Bool) (s : Bft)
      → Keeps P (
          when
            (w && not (t.step == Step.prevote) && not (t.step == Step.precommit))
            (log s.height LogType.time_out_info (env.rlp_encode (timeout_info_item t))))
  logged only t w s = search (keeps_rules, access_rules)

  pub timeout_process-leads :
      {P Q : Bft → Type 0} (frame : Frame P) (t : TimeoutInfo) (w : Bool)
      → ((s : Bft) → P s → Q s)
      → ((s : Bft) → P s → Q (on_timeout t.step s).1)
      → (s : Bft) → P s
      → Q (timeout_process t w s).1
  unfolding timeout_process
  timeout_process-leads {Q = Q} only t w weaken last s at =
      bind-leads _ _ Keeps-get weaken
        (λ r s at.
          bind-leads _ _ (vetted t r) weaken
            (λ _ s at. bind-leads _ _ (logged only t w r) weaken (λ _. last) s at) s at)
        s at

  commit_timeout-leads :
      (h : ℕ) (k : Step) (s : Bft)
      → k ≡ Step.commit_wait
      → s.height ≡ h
      → Moved h Unit (add64 h 1) (on_timeout k s).1
  unfolding on_timeout
  commit_timeout-leads h k s e at = rw e (commit_wait-leads h s at)

  timeout-at :
      (t : TimeoutInfo) (w : Bool) (s : Bft)
      → Moved s.height (t.step ≡ Step.commit_wait) (add64 s.height 1) (timeout_process t w s).1
  timeout-at t w s =
      timeout_process-leads {Q = Moved s.height (t.step ≡ Step.commit_wait) (add64 s.height 1)}
        (stays s.height) t w (λ _ same. inl same) last s refl
    where
      last :
          (r : Bft)
          → r.height ≡ s.height
          → Moved s.height (t.step ≡ Step.commit_wait) (add64 s.height 1) (on_timeout t.step r).1
      last r at = elim (Bool-cases (step_eq.beq t.step Step.commit_wait)) [
        | inl e ↦
            let is_wait : t.step ≡ Step.commit_wait =
              (step_eq.beq_iff t.step Step.commit_wait).0 e in
            elim (commit_timeout-leads s.height t.step r is_wait at) [
              | inl same ↦ inl same
              | inr (_, next) ↦ inr (is_wait, next)
            ]
        | inr other ↦ inl ((timeout-Keeps (stays s.height) t.step other).at r at)
      ]

  -- How one round of the main loop moves the height. Only a status that is not below the node's
  -- height, the timeout that ends a commit's wait and a reset can change it: the status leads to
  -- the height after its own, the timeout to the node's next height (both in 64-bit arithmetic),
  -- and the reset to 0. It holds whether the handler returns, fails or panics.
  pub handle_event-MovesTo : (e : Event) (s : Bft) → MovesTo e s.height (handle_event e s).1.height
  unfolding handle_event ◌>>=◌
  handle_event-MovesTo (message now (BftMsg.proposal e)) s =
      (process-Keeps (stays s.height) (Stays-Locking s.height) (BftMsg.proposal e) true tt).at
        (record s { clock = now }) refl
  handle_event-MovesTo (message now (BftMsg.vote e)) s =
      (process-Keeps (stays s.height) (Stays-Locking s.height) (BftMsg.vote e) true tt).at
        (record s { clock = now }) refl
  handle_event-MovesTo (message now (BftMsg.feed e)) s =
      (process-Keeps (stays s.height) (Stays-Locking s.height) (BftMsg.feed e) true tt).at
        (record s { clock = now }) refl
  handle_event-MovesTo (message now (BftMsg.status status)) s =
      status-at status true (record s { clock = now })
  handle_event-MovesTo (message now (BftMsg.verify_resp e)) s =
      (process-Keeps (stays s.height) (Stays-Locking s.height) (BftMsg.verify_resp e) true tt).at
        (record s { clock = now }) refl
  handle_event-MovesTo (message now BftMsg.pause) s =
      (process-Keeps (stays s.height) (Stays-Locking s.height) BftMsg.pause true tt).at
        (record s { clock = now }) refl
  handle_event-MovesTo (message now BftMsg.start) s =
      (process-Keeps (stays s.height) (Stays-Locking s.height) BftMsg.start true tt).at
        (record s { clock = now }) refl
  handle_event-MovesTo (message now (BftMsg.clear proof)) s =
      clear-at proof true (record s { clock = now })
  handle_event-MovesTo (message now BftMsg.corrupt) s =
      (process-Keeps (stays s.height) (Stays-Locking s.height) BftMsg.corrupt true tt).at
        (record s { clock = now }) refl
  handle_event-MovesTo (message now BftMsg.kill) s =
      (process-Keeps (stays s.height) (Stays-Locking s.height) BftMsg.kill true tt).at
        (record s { clock = now }) refl
  handle_event-MovesTo (timeout now t) s = timeout-at t true (record s { clock = now })
