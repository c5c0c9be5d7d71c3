-- ===== src/Core/Entry/Leads.antt =====
-- The events of the main loop of src/algorithm.rs that lead to another height, and the state there.
use bft_rs.Prelude.{
  ℕ, ◌^◌, ◌<◌, ◌≡◌, refl, Bool, true, false, ◌&&◌, not, Option, some, arith, add64, ltb, leb, ◌==◌,
  sub64, nat_eq, Bool-cases, inl, inr,
}
use bft_rs.Objects.{BftMsg, Status, Step, TimeoutInfo}
use bft_rs.Objects.Kinds.{step_eq, step_leb}
use bft_rs.Env.{Env, LruLaws}
use bft_rs.Checks.Save.{check_and_save_status}
use bft_rs.Collect.Votes.View.{HasRoom}
use bft_rs.Machine.State.{Bft}
use bft_rs.Machine.Monad.{◌>>=◌, unwrap}
use bft_rs.Machine.Access.{log}
use bft_rs.Core.Handlers.{handle_status, enter_height}
use bft_rs.Core.Process.{process, timeout_process, on_timeout, is_obsolete, timeout_commit_wait}
use bft_rs.Core.Replay.{Event, message, timeout, handle_event}
use bft_rs.Core.Entry.Enter.{Enters, IsEntered, enter_height-IsEntered}

module _ ⦃env : Env⦄ where
  -- Whether a status leads a node to another height: it is not below the node's, and above it in a
  -- build without `machine_gun`.
  abbrev pub leads : Status → Bft → Bool
  leads status s =
      leb s.height status.height && not ((status.height == s.height) && not env.machine_gun)

  -- An event that leads a node to a height, with a status: the one that it brings, or the one that
  -- the node has kept, when the wait of a commit ends.
  pub data LeadsTo (s : Bft) (status : Status) : Event → ℕ → Type 0 where
    by_status :
        (now : ℕ)
        → leads status s ≡ true
        → LeadsTo s status (message now (BftMsg.status status)) (add64 status.height 1)
    by_timeout :
        (now : ℕ) (t : TimeoutInfo)
        → t.step ≡ Step.commit_wait
        → is_obsolete t s ≡ false
        → s.status ≡ some status
        → LeadsTo s status (timeout now t) (add64 s.height 1)

  Enters-along :
      (s t : Bft) (status : Status) (height : ℕ)
      → t.authority_manage ≡ s.authority_manage
      → t.proposals ≡ s.proposals
      → t.blocks ≡ s.blocks
      → Enters s status height
      → Enters t status height
  Enters-along s t status height manage proposals blocks enters = record {
    distinct = enters.distinct;
    fits = enters.fits;
    pos = enters.pos;
    later = enters.later;
    not_old = rw manage enters.not_old;
    block = rw (proposals, blocks) enters.block;
  }

module _ ⦃env : Env⦄ (laws : LruLaws env) where
  status-IsEntered :
      (s : Bft) (status : Status) (now : ℕ)
      → s.height < 2 ^ 64
      → leads status s ≡ true
      → HasRoom laws s.votes
      → Enters s status (add64 status.height 1)
      → IsEntered laws status
          (add64 status.height 1)
          (handle_event (message now (BftMsg.status status)) s).1
  unfolding handle_event process check_and_save_status handle_status log ◌>>=◌
  status-IsEntered s status now small up room enters =
      let fresh : (ltb 0 s.height && ltb status.height (sub64 s.height 1)) ≡ false = ground arith in
      let not_last : (ltb 0 s.height
            && (status.height == sub64 s.height 1)
            && step_leb Step.commit s.step)
          ≡ false =
        ground arith in
      let above : leb s.height status.height ≡ true = ground arith in
      let moves : ((status.height == s.height) && not env.machine_gun) ≡ false = ground arith in
      elim (Bool-cases (ltb s.height status.height)) [
        | inl higher ↦
            rw (fresh, not_last, above, moves, higher)
              (enter_height-IsEntered laws _ status (add64 status.height 1) room
                (Enters-along s _ status (add64 status.height 1) refl refl refl enters))
        | inr level ↦
            rw (fresh, not_last, above, moves, level)
              (enter_height-IsEntered laws _ status (add64 status.height 1) room
                (Enters-along s _ status (add64 status.height 1) refl refl refl enters))
      ]

  kept-IsEntered :
      (s : Bft) (kept : Option Status) (status : Status) (height : ℕ)
      → kept ≡ some status
      → HasRoom laws s.votes
      → Enters s status height
      → IsEntered laws status height ((unwrap kept >>= λ st. enter_height st height) s).1
  unfolding ◌>>=◌
  kept-IsEntered s kept status height e room enters =
      rw e (enter_height-IsEntered laws s status height room enters)

  waits-IsEntered :
      (s : Bft) (status : Status)
      → s.status ≡ some status
      → HasRoom laws s.votes
      → Enters s status (add64 s.height 1)
      → IsEntered laws status (add64 s.height 1) (on_timeout Step.commit_wait s).1
  unfolding on_timeout timeout_commit_wait ◌>>=◌
  waits-IsEntered s status kept room enters =
      kept-IsEntered s s.status status (add64 s.height 1) kept room enters

  timeout-IsEntered :
      (s : Bft) (status : Status) (now : ℕ) (t : TimeoutInfo)
      → t.step ≡ Step.commit_wait
      → is_obsolete t s ≡ false
      → s.status ≡ some status
      → HasRoom laws s.votes
      → Enters s status (add64 s.height 1)
      → IsEntered laws status (add64 s.height 1) (handle_event (timeout now t) s).1
  unfolding handle_event timeout_process log ◌>>=◌
  timeout-IsEntered s status now t is_wait due kept room enters =
      let at : is_obsolete t (record s { clock = now }) ≡ false = due in
      rw (at, is_wait)
        (waits-IsEntered _ status kept room
          (Enters-along s _ status (add64 s.height 1) refl refl refl enters))

  -- When an event leads a node to a height, with a status, whatever votes, lock and authorities it had
  -- before: the node is at that height, under the status' authorities, sorted, and not locked; every
  -- set of votes of the height is tallied, the authorities are the present ones, have different
  -- addresses and less than 2 ^ 64 in weight, and the caches have room. This holds for a node at a
  -- 64-bit height and a status whose authorities have different addresses and less than 2 ^ 64 in
  -- weight, if the new height is above 0 and neither the status' nor that of the old authorities, the
  -- caches have room, and the block of the cached proposal of the new height's round 0, if there is
  -- one, is cached.
  pub handle_event-IsEntered :
      (s : Bft) (e : Event) (status : Status) (height : ℕ)
      → s.height < 2 ^ 64
      → LeadsTo s status e height
      → HasRoom laws s.votes
      → Enters s status height
      → IsEntered laws status height (handle_event e s).1
  handle_event-IsEntered s e status height small (LeadsTo.by_status now up) room enters =
      status-IsEntered s status now small up room enters
  handle_event-IsEntered s e status height small (LeadsTo.by_timeout now t is_wait due kept) room
        enters =
      timeout-IsEntered s status now t is_wait due kept room enters
