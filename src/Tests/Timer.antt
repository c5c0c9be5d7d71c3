-- ===== src/Tests/Timer.antt =====
-- The timer's loop over a concrete heap: a list whose least entry is searched.
use bft_rs.Prelude.{
  ℕ, ◌≤◌, ◌≡◌, refl, true, false, Option, none, some, List, [], ◌∷◌, ◌++◌, All, arith, leb,
  is_empty, if◌then◌else◌, Bool-cases, inl, inr,
}
use mathlib.Core.List.Permᴰ
use mathlib.Core.List.{Permᴰ}
use bft_rs.Objects.{TimeoutInfo, Step}
use bft_rs.Timer.{
  MinMaxHeap, HeapLaws, Drained, running, Round, drain, timer_round, timer_run, wait_for,
}
use bft_rs.Timer.Fires.{IsAscending, AllDue, AllLater}
use bft_rs.Timer.Runs.{received_in, all_received, timer_round_lem, timer_round_fires, timer_run_lem}

-- The first of the least entries, and the others.
abbrev pick : TimeoutInfo → TimeoutInfo × List TimeoutInfo → TimeoutInfo × List TimeoutInfo
pick t (m, rest) = if leb t.timestamp m.timestamp then (t, m ∷ rest) else (m, t ∷ rest)

abbrev least : TimeoutInfo → List TimeoutInfo → TimeoutInfo × List TimeoutInfo
least t [] = (t, [])
least t (u ∷ ts) = pick t (least u ts)

abbrev list_pop : List TimeoutInfo → Option (TimeoutInfo × List TimeoutInfo)
list_pop [] = none
list_pop (t ∷ ts) = some (least t ts)

abbrev list_peek : List TimeoutInfo → Option TimeoutInfo
list_peek [] = none
list_peek (t ∷ ts) = some (least t ts).0

instance abbrev list_heap : MinMaxHeap
list_heap = record {
  Heap = List TimeoutInfo;
  heap_new = [];
  heap_push = λ t h. t ∷ h;
  heap_is_empty = is_empty;
  peek_min = list_peek;
  pop_min = list_pop;
}

abbrev IsPicked : List TimeoutInfo → TimeoutInfo × List TimeoutInfo → Type 0
IsPicked ts (m, rest) =
    Permᴰ ts (m ∷ rest) × All (λ (u : TimeoutInfo). m.timestamp ≤ u.timestamp) rest

All-above :
    (n m : ℕ) (ts : List TimeoutInfo)
    → n ≤ m
    → All (λ (u : TimeoutInfo). m ≤ u.timestamp) ts
    → All (λ (u : TimeoutInfo). n ≤ u.timestamp) ts
All-above n m [] le h = tt
All-above n m (t ∷ ts) le h = (omega arith, All-above n m ts le h.1)

pick_lem :
    (t : TimeoutInfo) (ts : List TimeoutInfo) (p : TimeoutInfo × List TimeoutInfo)
    → IsPicked ts p
    → IsPicked (t ∷ ts) (pick t p)
pick_lem t ts (m, rest) (kept, above) = elim (Bool-cases (leb t.timestamp m.timestamp)) [
  | inl le ↦
      let bound : t.timestamp ≤ m.timestamp = ground arith in
      rw le (Permᴰ.cons refl kept, (bound, All-above t.timestamp m.timestamp rest bound above))
  | inr gt ↦
      let bound : m.timestamp ≤ t.timestamp = ground arith in
      rw gt (Permᴰ.trans (Permᴰ.cons refl kept) (Permᴰ.swap refl refl), (bound, above))
]

least_lem : (t : TimeoutInfo) (ts : List TimeoutInfo) → IsPicked (t ∷ ts) (least t ts)
least_lem t [] = (Permᴰ.refl (t ∷ []), tt)
least_lem t (u ∷ ts) = pick_lem t (u ∷ ts) (least u ts) (least_lem u ts)

list_heap-peek :
    (h : List TimeoutInfo)
    → is_empty h ≡ false
    → (t : TimeoutInfo) × (rest : List TimeoutInfo) × (list_peek h ≡ some t)
      × (list_pop h ≡ some (t, rest))
      × Permᴰ h (t ∷ rest)
      × All (λ (u : TimeoutInfo). t.timestamp ≤ u.timestamp) rest
list_heap-peek [] full = cc
list_heap-peek (t ∷ ts) full =
    ((least t ts).0, (least t ts).1, refl, refl, (least_lem t ts).0, (least_lem t ts).1)

abbrev list_heap-HeapLaws : HeapLaws list_heap
list_heap-HeapLaws = record {
  items = λ h. h;
  items_new = refl;
  items_push = λ t h. Permᴰ.refl (t ∷ h);
  empty_items = λ h. refl;
  peek_items = list_heap-peek;
}

abbrev at_instant : ℕ → TimeoutInfo
at_instant n = record { timestamp = n; duration = 1; height = 1; round = 0; step = Step.prevote }

abbrev held : List TimeoutInfo
held = at_instant 30 ∷ at_instant 10 ∷ []

abbrev arrives : Round
arrives = record { received = some (at_instant 20); now = 25; open_channel = true }

abbrev quiet : Round
quiet = record { received = none; now = 25; open_channel = true }

-- What is due is sent in order, and the rest is kept.
round_sends :
    timer_round 9 arrives held ≡ running (at_instant 30 ∷ []) (at_instant 10 ∷ at_instant 20 ∷ [])
unfolding timer_round drain
round_sends = refl

-- A channel that is shut breaks the loop off, with the timeout popped.
shut_channel :
    timer_round 9 (record arrives { open_channel = false }) held
    ≡ Drained.stopped (at_instant 20 ∷ at_instant 30 ∷ []) []
unfolding timer_round drain
shut_channel = refl

timer_round_lem_example :
    (h' : List TimeoutInfo) × (sent : List TimeoutInfo) × (timer_round 9 arrives held
      ≡ running h' sent)
    × Permᴰ (received_in arrives.received ++ held) (sent ++ h')
    × IsAscending sent
    × AllDue arrives.now sent
    × AllLater arrives.now h'
timer_round_lem_example = timer_round_lem list_heap-HeapLaws 9 arrives held (omega arith) refl

held_waits : wait_for 4 held ≡ some 6
unfolding wait_for
held_waits = refl

timer_round_fires_example :
    (h' : List TimeoutInfo) × (t : TimeoutInfo) × (sent : List TimeoutInfo) × (timer_round 9 quiet
        held
      ≡ running h' (t ∷ sent))
    × (t.timestamp ≤ quiet.now)
timer_round_fires_example =
    timer_round_fires list_heap-HeapLaws 9 4 6 quiet held (omega arith) refl refl refl held_waits
      (omega arith)

timer_run_lem_example :
    (h' : List TimeoutInfo) × (sent : List TimeoutInfo) × (timer_run 9 (quiet ∷ arrives ∷ []) held
      ≡ running h' sent)
    × Permᴰ (all_received (quiet ∷ arrives ∷ []) ++ held) (sent ++ h')
timer_run_lem_example =
    timer_run_lem list_heap-HeapLaws 9 (quiet ∷ arrives ∷ []) held (omega arith) (refl, (refl, tt))
