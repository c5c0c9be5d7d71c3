-- ===== src/Core/Entry/Waits.antt =====
-- The statuses and timeouts of src/algorithm.rs that could lead to another height, and do not.
use bft_rs.Prelude.{
  ℕ, ◌≡◌, refl, Bool, true, false, ◌&&◌, not, ◌==◌, nat_eq, some, arith, leb, Bool-cases, inl, inr,
  obsolete_msg, if◌then◌else◌, Option, none, add64,
}
use bft_rs.Objects.{BftMsg, Status, TimeoutInfo, Step}
use bft_rs.Objects.Kinds.{step_eq}
use bft_rs.Env.{Env}
use bft_rs.Machine.State.{Bft}
use bft_rs.Machine.Monad.{◌>>=◌, raise, unwrap}
use bft_rs.Machine.Monad.Keeps.{
  Keeps, keeps_rules, Keeps-bind, Keeps-get-bind, Keeps-modify, Keeps-raise,
}
use bft_rs.Core.Handlers.{handle_status, accept_status, wait_interval, enter_height}
use bft_rs.Core.Process.{process, timeout_process, is_obsolete, on_timeout, timeout_commit_wait}
use bft_rs.Core.Replay.{message, timeout, handle_event}
use bft_rs.Machine.Access.{log}
use bft_rs.Core.Height.{Frame, access_rules}
use bft_rs.Core.Height.Checks.{save_status-Keeps}
use bft_rs.Core.Height.Handlers.{handle_commit-Keeps}
use bft_rs.Core.Entry.Leads.{leads}

module _ ⦃env : Env⦄ {P : Bft → Type 0} (frame : Frame P) (h : ℕ)
    (at_height : (s : Bft) → P s → s.height ≡ h) where
  accept-waits :
      (status : Status) (s : Bft)
      → ((status.height == s.height) && not env.machine_gun) ≡ true
      → Keeps P (accept_status status s)
  accept-waits status s level =
      let keep : (t : Bft) → P t → P (record t { status = some status }) =
        λ t at. frame.move _ _ refl refl refl refl refl refl at in
      let waits : Keeps P (wait_interval s) = search (keeps_rules, access_rules) depth 12 in
      Keeps-bind _ _ (Keeps-modify _ keep) (λ _. rw level waits)

  handle_status-waits :
      (status : Status)
      → (leb h status.height && not ((status.height == h) && not env.machine_gun)) ≡ false
      → Keeps P (handle_status status)
  unfolding handle_status
  handle_status-waits status stay =
      let tail : (s : Bft)
          → P s
          → Keeps P
              (if leb s.height status.height then accept_status status s else raise obsolete_msg) =
        λ s at. elim (Bool-cases (leb s.height status.height)) [
          | inl le ↦
              rw le (
                accept-waits status s (let here = at_height s at in ground (arith, stay, here, le)))
          | inr gt ↦ rw gt (Keeps-raise obsolete_msg)
        ] in
      Keeps-bind _ _ (search (keeps_rules))
        λ s₀. Keeps-bind _ _ (search (keeps_rules, handle_commit-Keeps)) λ _. Keeps-get-bind _ tail

  status-waits :
      (status : Status) (w : Bool)
      → (leb h status.height && not ((status.height == h) && not env.machine_gun)) ≡ false
      → Keeps P (process (BftMsg.status status) w)
  unfolding process
  status-waits status w stay =
      Keeps-bind _ _ (save_status-Keeps frame status w) (λ _. handle_status-waits status stay)

  -- A status that does not lead to another height.
  pub event-waits :
      (now : ℕ) (status : Status) (s : Bft)
      → leads status s ≡ false
      → P s
      → P (handle_event (message now (BftMsg.status status)) s).1
  unfolding handle_event ◌>>=◌
  event-waits now status s stay at =
      let here = at_height s at in
      (status-waits status true (rw here at stay)).at (record s { clock = now })
        (frame.move s (record s { clock = now }) refl refl refl refl refl refl at)

  -- An obsolete timeout.
  pub event-late :
      (now : ℕ) (t : TimeoutInfo) (s : Bft)
      → is_obsolete t s ≡ true
      → P s
      → P (handle_event (timeout now t) s).1
  unfolding handle_event timeout_process ◌>>=◌
  event-late now t s late at =
      let over : is_obsolete t (record s { clock = now }) ≡ true = late in
      rw over (frame.move s (record s { clock = now }) refl refl refl refl refl refl at)

  kept_none :
      (kept : Option Status) (height : ℕ) (s : Bft)
      → kept ≡ none
      → P s
      → P ((unwrap kept >>= λ st. enter_height st height) s).1
  unfolding ◌>>=◌
  kept_none kept height s missing at = rw missing at

  wait-stuck : (s : Bft) → s.status ≡ none → P s → P (on_timeout Step.commit_wait s).1
  unfolding on_timeout timeout_commit_wait ◌>>=◌
  wait-stuck s missing at = kept_none s.status (add64 s.height 1) s missing at

  -- The end of a commit's wait without a status, which panics.
  pub event-stuck :
      (now : ℕ) (t : TimeoutInfo) (s : Bft)
      → t.step ≡ Step.commit_wait
      → is_obsolete t s ≡ false
      → s.status ≡ none
      → P s
      → P (handle_event (timeout now t) s).1
  unfolding handle_event timeout_process log ◌>>=◌
  event-stuck now t s is_wait due missing at =
      let now_due : is_obsolete t (record s { clock = now }) ≡ false = due in
      rw (now_due, is_wait) (wait-stuck _ missing (frame.move s _ refl refl refl refl refl refl at))
