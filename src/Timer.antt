-- ===== src/Timer.antt =====
-- `WaitTimer` of src/timer.rs: the thread that keeps the timeouts in a heap and sends those that are
-- due to the main loop. The heap is that of the crate `min_max_heap`.
pub mod Fires
pub mod Runs
use bft_rs.Prelude.{
  ℕ, zero, suc, ◌-◌, ◌≤◌, ◌≡◌, Bool, true, false, Option, none, some, List, [], ◌∷◌, All, ltb, leb,
  is_empty, if◌then◌else◌,
}
use mathlib.Core.List.{Permᴰ}
use bft_rs.Objects.{TimeoutInfo}

-- `MinMaxHeap<TimeoutInfo>`, whose order is that of `Ord for TimeoutInfo`: by the timestamp.
pub record MinMaxHeap : Type 1 where
  pub Heap : Type 0
  pub heap_new : Heap
  pub heap_push : TimeoutInfo → Heap → Heap
  pub heap_is_empty : Heap → Bool
  pub peek_min : Heap → Option TimeoutInfo
  pub pop_min : Heap → Option (TimeoutInfo × Heap)

-- A heap holds what was pushed and not popped, and gives the least first.
pub record HeapLaws (ops : MinMaxHeap) : Type 0 where
  pub items : ops.Heap → List TimeoutInfo
  pub items_new : items ops.heap_new ≡ []
  pub items_push :
      (t : TimeoutInfo) (h : ops.Heap) → Permᴰ (t ∷ items h) (items (ops.heap_push t h))
  pub empty_items : (h : ops.Heap) → ops.heap_is_empty h ≡ is_empty (items h)
  pub peek_items :
      (h : ops.Heap)
      → ops.heap_is_empty h ≡ false
      → (t : TimeoutInfo) × (rest : ops.Heap) × (ops.peek_min h ≡ some t)
        × (ops.pop_min h ≡ some (t, rest))
        × Permᴰ (items h) (t ∷ items rest)
        × All (λ (u : TimeoutInfo). t.timestamp ≤ u.timestamp) (items rest)

module _ ⦃ops : MinMaxHeap⦄ where
  open ops use {Heap, heap_is_empty, heap_push, peek_min, pop_min}

  -- How long the thread waits for a new timeout: until the earliest is due, or 100 seconds. The
  -- `unwrap` of an empty heap's least element panics.
  unfoldable pub wait_for : ℕ → Heap → Option ℕ
  wait_for now h = if heap_is_empty h then some 100000000000 else (elim (peek_min h) [
    | none ↦ none
    | some t ↦ some (if ltb now t.timestamp then t.timestamp - now else 0)
  ])

  -- How the inner loop ends: with the heap and what was sent, the first first, while the thread goes
  -- on or breaks off; in a panic of an `unwrap`; or, in the model only, out of fuel.
  pub data Drained : Type 0 where
    running : Heap → List TimeoutInfo → Drained
    stopped : Heap → List TimeoutInfo → Drained
    panicked : Drained
    out_of_fuel : Drained

  abbrev pub after_sending : TimeoutInfo → Drained → Drained
  after_sending t (running h sent) = running h (t ∷ sent)
  after_sending t (stopped h sent) = stopped h (t ∷ sent)
  after_sending t panicked = panicked
  after_sending t out_of_fuel = out_of_fuel

  abbrev pub sent_before : List TimeoutInfo → Drained → Drained
  sent_before [] d = d
  sent_before (t ∷ ts) d = after_sending t (sent_before ts d)

  -- A failed `send` breaks off, with the timeout taken from the heap.
  abbrev pub send_one : Bool → TimeoutInfo → Heap → Drained → Drained
  send_one open_channel t rest d = if open_channel then after_sending t d else stopped rest []

  -- `while !timer_heap.is_empty() && now >= …`, where `open_channel` is whether sends succeed.
  unfoldable pub drain : ℕ → ℕ → Bool → Heap → Drained
  drain zero now open_channel h = out_of_fuel
  drain (suc fuel) now open_channel h =
      let next : Drained = elim (pop_min h) [
        | none ↦ panicked
        | some (t, rest) ↦ send_one open_channel t rest (drain fuel now open_channel rest)
      ] in
      let test : Drained = elim (peek_min h) [
        | none ↦ panicked
        | some first ↦ if leb first.timestamp now then next else running h []
      ] in
      if heap_is_empty h then running h [] else test

  -- What one round of the outer loop meets: what `recv_timeout` gives, the instant after it, and
  -- whether the channel to the main loop is open.
  pub record Round : Type 0 where
    pub received : Option TimeoutInfo
    pub now : ℕ
    pub open_channel : Bool

  abbrev pub push_received : Option TimeoutInfo → Heap → Heap
  push_received none h = h
  push_received (some t) h = heap_push t h

  -- One round of the loop of `WaitTimer::start`, after the wait.
  unfoldable pub timer_round : ℕ → Round → Heap → Drained
  unfolding drain
  timer_round fuel r h = drain fuel r.now r.open_channel (push_received r.received h)

  -- The loop over some rounds, with what was sent in each; it ends at a round that stops.
  unfoldable pub timer_run : ℕ → List Round → Heap → Drained
  timer_run fuel [] h = running h []
  timer_run fuel (r ∷ rs) h = elim (timer_round fuel r h) [
    | running h' sent ↦ sent_before sent (timer_run fuel rs h')
    | stopped h' sent ↦ stopped h' sent
    | panicked ↦ panicked
    | out_of_fuel ↦ out_of_fuel
  ]
