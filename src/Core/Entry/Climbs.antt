-- ===== src/Core/Entry/Climbs.antt =====
-- The main loop of src/algorithm.rs over any number of heights.
use bft_rs.Prelude.{ℕ, ◌^◌, ◌<◌, ◌≡◌, refl, true, false, arith, none}
use bft_rs.Objects.{BftMsg, Status, TimeoutInfo, Step}
use bft_rs.Env.{Env, LruLaws}
use bft_rs.Machine.State.{Bft}
use bft_rs.Core.Process.{is_obsolete}
use bft_rs.Core.Replay.{Event, message, timeout, handle_event}
use bft_rs.Core.Commits.Within.{StaysAt, handle_event-Keeps}
use bft_rs.Core.Justified.{LockIsJustified}
use bft_rs.Core.Justified.Counts.{Justified}
use bft_rs.Core.Justified.Runs.{Held, held, held_locking}
use bft_rs.Core.Entry.Enter.{Enters}
use bft_rs.Core.Entry.Leads.{leads, LeadsTo, handle_event-IsEntered}
use bft_rs.Core.Entry.Waits.{event-waits, event-late, event-stuck}

module _ ⦃env : Env⦄ where
  -- The states of the main loop over any number of heights: an event leads the node to a height with
  -- what a status and a node have to have for that, or leaves it at its height. No event is a reset.
  pub data Climbs (s : Bft) : Bft → Type 0 where
    start : Climbs s s
    stays : {t : Bft} (e : Event) → StaysAt e → Climbs s t → Climbs s (handle_event e t).1
    waits :
        {t : Bft} (now : ℕ) (status : Status)
        → leads status t ≡ false
        → Climbs s t
        → Climbs s (handle_event (message now (BftMsg.status status)) t).1
    late :
        {t : Bft} (now : ℕ) (i : TimeoutInfo)
        → is_obsolete i t ≡ true
        → Climbs s t
        → Climbs s (handle_event (timeout now i) t).1
    stuck :
        {t : Bft} (now : ℕ) (i : TimeoutInfo)
        → i.step ≡ Step.commit_wait
        → is_obsolete i t ≡ false
        → t.status ≡ none
        → Climbs s t
        → Climbs s (handle_event (timeout now i) t).1
    enters :
        {t : Bft} (e : Event) (status : Status) (height : ℕ)
        → LeadsTo t status e height
        → Enters t status height
        → Climbs s t
        → Climbs s (handle_event e t).1

module _ ⦃env : Env⦄ (laws : LruLaws env) where
  -- The votes of the height are tallied and a lock is justified, at a 64-bit height above 0.
  pub record IsSound (s : Bft) : Type 0 where
    pub justified : Justified laws s
    pub pos : 0 < s.height
    pub small : s.height < 2 ^ 64

  from_held :
      (height : ℕ) (s : Bft) (small : height < 2 ^ 64)
      → 0 < height
      → Held laws height small s
      → IsSound s
  from_held height s small pos at = record {
    justified = at.0;
    pos = rw at.1 pos;
    small = rw at.1 small;
  }

  leads-small :
      (s : Bft) (e : Event) (status : Status) (height : ℕ)
      → LeadsTo s status e height
      → height < 2 ^ 64
  leads-small s e status height (LeadsTo.by_status now up) = omega arith
  leads-small s e status height (LeadsTo.by_timeout now t is_wait due kept) = omega arith

  pub Climbs-IsSound : {s t : Bft} → IsSound s → Climbs s t → IsSound t
  Climbs-IsSound at Climbs.start = at
  Climbs-IsSound at (Climbs.stays {t = t} e stay run) =
      let now = Climbs-IsSound at run in
      from_held t.height (handle_event e t).1 now.small now.pos (
        handle_event-Keeps (held laws t.height now.small) (held_locking laws t.height now.small) e
          stay t (now.justified, refl))
  Climbs-IsSound at (Climbs.waits {t = t} clock status stay run) =
      let now = Climbs-IsSound at run in
      from_held t.height _ now.small now.pos (
        event-waits (held laws t.height now.small) t.height (λ s h. h.1) clock status t stay
          (now.justified, refl))
  Climbs-IsSound at (Climbs.late {t = t} clock i over run) =
      let now = Climbs-IsSound at run in
      from_held t.height _ now.small now.pos (
        event-late (held laws t.height now.small) t.height (λ s h. h.1) clock i t over
          (now.justified, refl))
  Climbs-IsSound at (Climbs.stuck {t = t} clock i is_wait due missing run) =
      let now = Climbs-IsSound at run in
      from_held t.height _ now.small now.pos (
        event-stuck (held laws t.height now.small) t.height (λ s h. h.1) clock i t is_wait due
          missing (now.justified, refl))
  Climbs-IsSound at (Climbs.enters {t = t} e status height to brought run) =
      let now = Climbs-IsSound at run in
      let in_it =
        handle_event-IsEntered laws t e status height now.small to now.justified.0.2 brought in
      record {
        justified = in_it.justified;
        pos = rw in_it.at_height brought.pos;
        small = rw in_it.at_height (leads-small t e status height to);
      }

  -- Along any run of the main loop over any number of heights, whatever messages, timeouts and
  -- statuses it takes, but no reset: if the node is locked, its lock is justified. Where a status or
  -- the wait of a commit leads to another height, the authorities of the status have different
  -- addresses and less than 2 ^ 64 in weight, the height is above 0 and neither the status' nor that
  -- of the old authorities, and the block of a cached proposal of its round 0 is cached. At the start
  -- the same holds of the present authorities, a lock is justified, every set of votes of the height,
  -- which is a 64-bit number above 0, is tallied, and the caches have room.
  pub Climbs-LockIsJustified : (s t : Bft) → IsSound s → Climbs s t → LockIsJustified t
  Climbs-LockIsJustified s t at run = (Climbs-IsSound at run).justified.1
