-- ===== src/Core/Height/Runs.antt =====
-- The height along a run of the main loop.
use bft_rs.Prelude.{ℕ, ◌+◌, ◌^◌, ◌<◌, ◌≤◌, arith}
use bft_rs.Objects.{BftMsg}
use bft_rs.Env.{Env}
use bft_rs.Machine.State.{Bft}
use bft_rs.Core.Replay.{Event, message, timeout, handle_event}
use bft_rs.Core.Height.Loop.{MovesTo, handle_event-MovesTo}

module _ ⦃env : Env⦄ where
  -- An event that is no reset, and that does not lead a height beyond a 64-bit word.
  abbrev pub NoReset : Event → ℕ → Type 0
  NoReset (message now (BftMsg.status status)) h = status.height + 1 < 2 ^ 64
  NoReset (message now (BftMsg.clear proof)) h = ⊥
  NoReset (message now _) h = Unit
  NoReset (timeout now t) h = h + 1 < 2 ^ 64

  MovesTo-le : (e : Event) (h h' : ℕ) → NoReset e h → MovesTo e h h' → h ≤ h'
  MovesTo-le (message now (BftMsg.proposal m)) h h' fits moves = omega arith
  MovesTo-le (message now (BftMsg.vote m)) h h' fits moves = omega arith
  MovesTo-le (message now (BftMsg.feed m)) h h' fits moves = omega arith
  MovesTo-le (message now (BftMsg.status status)) h h' fits moves = ground arith
  MovesTo-le (message now (BftMsg.verify_resp m)) h h' fits moves = omega arith
  MovesTo-le (message now BftMsg.pause) h h' fits moves = omega arith
  MovesTo-le (message now BftMsg.start) h h' fits moves = omega arith
  MovesTo-le (message now (BftMsg.clear proof)) h h' fits moves = absurd fits
  MovesTo-le (message now BftMsg.corrupt) h h' fits moves = omega arith
  MovesTo-le (message now BftMsg.kill) h h' fits moves = omega arith
  MovesTo-le (timeout now t) h h' fits moves = ground arith

  -- The states that the main loop goes through, from a first one.
  pub data Run (s : Bft) : Bft → Type 0 where
    start : Run s s
    event : {t : Bft} (e : Event) → NoReset e t.height → Run s t → Run s (handle_event e t).1

  -- Along a run without a reset, in which no height leaves the 64-bit words, the height never
  -- falls.
  pub Run-height : {s t : Bft} → Run s t → s.height ≤ t.height
  Run-height Run.start = omega arith
  Run-height (Run.event {t = t} e fits run) = omega (
    arith,
    Run-height run,
    MovesTo-le e t.height (handle_event e t).1.height fits (handle_event-MovesTo e t),
  )
