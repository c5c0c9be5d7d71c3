-- ===== src/Core/Agreement.antt =====
-- The node's block hash and its lock, through the main loop of src/algorithm.rs: whatever happens, an
-- honest node that is locked has the lock's block hash as its own.
use bft_rs.Prelude.{
  ℕ, ◌≡◌, refl, sym, ◌∙◌, ◌⊎◌, inl, inr, Bool, true, some, none, leb, if◌then◌else◌, obsolete_msg,
  Bool-cases, arith, add64,
}
use bft_rs.Objects.{Bytes, BftMsg, LockStatus, Status, Step, TimeoutInfo}
use bft_rs.Objects.Kinds.{step_eq}
use bft_rs.Env.{Env}
use bft_rs.Wal.{Wal}
use bft_rs.Machine.State.{Bft, bft_new}
use bft_rs.Machine.Monad.{◌>>=◌, raise}
use bft_rs.Machine.Monad.Keeps.{
  Keeps, keeps_rules, Keeps-bind, Keeps-if, Keeps-raise, Keeps-get-bind, Keeps-unwrap,
}
use bft_rs.Core.Handlers.{handle_status, accept_status, enter_height}
use bft_rs.Core.Process.{process, timeout_process, on_timeout, timeout_commit_wait}
use bft_rs.Core.Replay.{Event, message, timeout, handle_event}
use bft_rs.Core.Height.{Frame, Locks, Free, frame_of}
use bft_rs.Core.Height.Checks.{save_status-Keeps}
use bft_rs.Core.Height.Handlers.{handle_commit-Keeps}
use bft_rs.Core.Height.Messages.{Locking, locking_of}
use bft_rs.Core.Height.Events.{process-Keeps, timeout-Keeps, accept-Keeps, enter_height-Keeps}
use bft_rs.Core.Height.Loop.{timeout_process-leads}

module _ ⦃env : Env⦄ where
  -- A corrupt node, or one whose block hash is that of its lock, if it has a lock.
  abbrev pub Agrees : Bft → Type 0
  Agrees s =
      (s.is_byzantine ≡ true)
      ⊎ ((lock : LockStatus) → s.lock_status ≡ some lock → s.block_hash ≡ some lock.block_hash)

  Agrees-along :
      (s s' : Bft)
      → s'.height ≡ s.height
      → s'.is_byzantine ≡ s.is_byzantine
      → s'.lock_status ≡ s.lock_status
      → s'.block_hash ≡ s.block_hash
      → Agrees s
      → Agrees s'
  Agrees-along s s' h b l k (inl e) = inl (b ∙ e)
  Agrees-along s s' h b l k (inr f) = inr (λ lock e. k ∙ f lock (sym l ∙ e))

  Agrees-Free : Free Agrees
  Agrees-Free = record { move = Agrees-along }

  same_lock :
      (lock lock' : LockStatus) (s' : Bft)
      → s'.block_hash ≡ some lock.block_hash
      → some lock ≡ some lock'
      → s'.block_hash ≡ some lock'.block_hash
  same_lock lock lock' s' k e = let e' : lock ≡ lock' = ground arith in rw (← e') k

  pub agrees : Frame Agrees
  agrees =
      frame_of Agrees-Free (λ s s' h b l at. inr (λ lock e. absurd (ground (arith, l, e))))
        (λ s s' h b l at. inl b)

  Agrees-Locks : Locks Agrees
  Agrees-Locks s s' lock h b m v l k at = inr (λ lock' e. same_lock lock lock' s' k (sym l ∙ e))

  Agrees-Locking : Locking Agrees
  Agrees-Locking = locking_of agrees Agrees-Locks

  -- Without a lock there is nothing to agree on.
  unlocked : (s : Bft) → s.lock_status ≡ none → Agrees s
  unlocked s free = inr (λ lock e. absurd (ground (arith, free, e)))

  status-Agrees : (status : Status) → Keeps Agrees (handle_status status)
  unfolding handle_status
  status-Agrees status =
      let tail : (s : Bft)
          → Agrees s
          → Keeps Agrees
              (if leb s.height status.height then accept_status status s else raise obsolete_msg) =
        λ s at.
          Keeps-if _ _ _ (accept-Keeps agrees Agrees-Free status s (λ t e l. unlocked t l))
            (Keeps-raise obsolete_msg) in
      Keeps-bind _ _ (search (keeps_rules)) λ s₀.
        Keeps-bind _ _ (search (keeps_rules, agrees, handle_commit-Keeps))
          λ _. Keeps-get-bind _ tail

  pub process-Agrees : (m : BftMsg) (w : Bool) → Keeps Agrees (process m w)
  unfolding process ◌>>=◌
  process-Agrees (BftMsg.proposal e) w =
      process-Keeps agrees Agrees-Locking (BftMsg.proposal e) w tt
  process-Agrees (BftMsg.vote e) w = process-Keeps agrees Agrees-Locking (BftMsg.vote e) w tt
  process-Agrees (BftMsg.feed f) w = process-Keeps agrees Agrees-Locking (BftMsg.feed f) w tt
  process-Agrees (BftMsg.status t) w =
      Keeps-bind _ _ (save_status-Keeps agrees t w) (λ _. status-Agrees t)
  process-Agrees (BftMsg.verify_resp r) w =
      process-Keeps agrees Agrees-Locking (BftMsg.verify_resp r) w tt
  process-Agrees BftMsg.pause w = process-Keeps agrees Agrees-Locking BftMsg.pause w tt
  process-Agrees BftMsg.start w = process-Keeps agrees Agrees-Locking BftMsg.start w tt
  process-Agrees (BftMsg.clear p) w = record {
    at = λ s h. unlocked (process (BftMsg.clear p) w s).1 refl;
  }
  process-Agrees BftMsg.corrupt w = process-Keeps agrees Agrees-Locking BftMsg.corrupt w tt
  process-Agrees BftMsg.kill w = process-Keeps agrees Agrees-Locking BftMsg.kill w tt

  commit_wait-Agrees : Keeps Agrees timeout_commit_wait
  unfolding timeout_commit_wait
  commit_wait-Agrees = Keeps-get-bind _ λ s at.
      let enter : (status : Status) → Keeps Agrees (enter_height status (add64 s.height 1)) =
        λ status.
          enter_height-Keeps agrees Agrees-Free status (add64 s.height 1) (λ t e l. unlocked t l) in
      Keeps-bind _ _ (Keeps-unwrap s.status) enter

  on_timeout-Agrees : (k : Step) → Keeps Agrees (on_timeout k)
  unfolding on_timeout
  on_timeout-Agrees k = elim (Bool-cases (step_eq.beq k Step.commit_wait)) [
    | inl e ↦
        let is_wait : k ≡ Step.commit_wait = (step_eq.beq_iff k Step.commit_wait).0 e in
        rw is_wait commit_wait-Agrees
    | inr other ↦ timeout-Keeps agrees k other
  ]

  pub timeout-Agrees :
      (t : TimeoutInfo) (w : Bool) (s : Bft) → Agrees s → Agrees (timeout_process t w s).1
  timeout-Agrees t w =
      timeout_process-leads {Q = Agrees} agrees t w (λ s at. at) (on_timeout-Agrees t.step).at

  -- One round of the main loop, whatever it takes and however it ends.
  pub handle_event-Agrees : (e : Event) (s : Bft) → Agrees s → Agrees (handle_event e s).1
  unfolding handle_event ◌>>=◌
  handle_event-Agrees (message now m) s at =
      (process-Agrees m true).at (record s { clock = now }) at
  handle_event-Agrees (timeout now t) s at = timeout-Agrees t true (record s { clock = now }) at

  -- The states that the main loop goes through from a first one, resets included.
  pub data Reaches (s : Bft) : Bft → Type 0 where
    start : Reaches s s
    event : {t : Bft} (e : Event) → Reaches s t → Reaches s (handle_event e t).1

  -- Along any run of the main loop, from a state in which the block hash agrees with the lock, it
  -- agrees in every state: an honest node that is locked has its lock's block hash as its own.
  Reaches-Agrees : {s t : Bft} → Agrees s → Reaches s t → Agrees t
  Reaches-Agrees at Reaches.start = at
  Reaches-Agrees at (Reaches.event {t = t} e run) = handle_event-Agrees e t (Reaches-Agrees at run)

  -- A new node agrees.
  pub bft_new-Agrees :
      (address : Bytes) (clock : ℕ) (wal : Wal) → Agrees (bft_new address clock wal)
  bft_new-Agrees address clock wal = unlocked (bft_new address clock wal) refl
