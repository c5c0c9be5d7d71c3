-- ===== src/Timer/Runs.antt =====
-- The timer's loop over many rounds.
use bft_rs.Prelude.{
  ℕ, ◌+◌, ◌≤◌, ◌<◌, ◌≡◌, refl, ap, true, false, Option, none, some, List, [], ◌∷◌, ◌++◌, All, arith,
  length, length-append,
}
use mathlib.Core.List.Permᴰ
use mathlib.Core.List.{Permᴰ, append_assoc}
use bft_rs.Objects.{TimeoutInfo}
use bft_rs.Timer.{
  MinMaxHeap, HeapLaws, running, Round, timer_round, timer_run, push_received, wait_for,
  sent_before, after_sending,
}
use bft_rs.Timer.Fires.{drain_lem, length-perm, IsAscending, AllDue, AllLater, All-perm}

-- What a round receives, as a list, and what rounds do in turn.
abbrev pub received_in : Option TimeoutInfo → List TimeoutInfo
received_in none = []
received_in (some t) = t ∷ []

module _ ⦃ops : MinMaxHeap⦄ where
  abbrev pub all_received : List Round → List TimeoutInfo
  all_received [] = []
  all_received (r ∷ rs) = received_in r.received ++ all_received rs

  -- Sends succeed in all the rounds.
  abbrev pub AllOpen : List Round → Type 0
  AllOpen = All λ r. r.open_channel ≡ true

  module _ (laws : HeapLaws ops) where
    open laws use {items}

    items-push_received :
        (o : Option TimeoutInfo) (h : ops.Heap)
        → Permᴰ (received_in o ++ items h) (items (push_received o h))
    items-push_received none h = Permᴰ.refl (items h)
    items-push_received (some t) h = laws.items_push t h

    -- One round of the loop, on an open channel and with more fuel than there are timeouts: it goes
    -- on, has sent in ascending order what is due by its instant, and keeps the rest, none of which
    -- is due; nothing of what the heap held or the round received is lost or sent twice.
    pub timer_round_lem :
        (fuel : ℕ) (r : Round) (h : ops.Heap)
        → length (items h) + 1 < fuel
        → r.open_channel ≡ true
        → (h' : ops.Heap) × (sent : List TimeoutInfo) × (timer_round fuel r h ≡ running h' sent)
          × Permᴰ (received_in r.received ++ items h) (sent ++ items h')
          × IsAscending sent
          × AllDue r.now sent
          × AllLater r.now (items h')
    unfolding timer_round
    timer_round_lem fuel r h enough is_open =
        let pushed = items-push_received r.received h in
        let size = length-perm pushed in
        let (h', sent, run, f) =
          drain_lem laws fuel r.now (push_received r.received h)
            (ground (arith, length-append (received_in r.received) (items h))) in
        (h', sent, rw (is_open, run), Permᴰ.trans pushed f.kept, f.ascending, f.due, f.later)

    -- If the channel is open, and nothing arrives while the thread waits for the earliest timeout of a
    -- heap that is not empty, then the round after the wait goes on and sends a timeout first that is
    -- due by its instant, on more fuel than the heap's timeouts and one.
    pub timer_round_fires :
        (fuel before wait : ℕ) (r : Round) (h : ops.Heap)
        → length (items h) + 1 < fuel
        → r.open_channel ≡ true
        → ops.heap_is_empty h ≡ false
        → r.received ≡ none
        → wait_for before h ≡ some wait
        → before + wait ≤ r.now
        → (h' : ops.Heap) × (t : TimeoutInfo) × (sent : List TimeoutInfo) × (timer_round fuel r h
            ≡ running h' (t ∷ sent))
          × (t.timestamp ≤ r.now)
    unfolding wait_for
    timer_round_fires fuel before wait r h enough is_open full silent waits passed =
        let (first, rest, peek, pop, p, least) = laws.peek_items h full in
        let is_due : first.timestamp ≤ r.now = ground arith in
        some_sent is_due p (timer_round_lem fuel r h enough is_open)
      where
        some_sent :
            {first : TimeoutInfo} {rest : ops.Heap}
            → first.timestamp ≤ r.now
            → Permᴰ (items h) (first ∷ items rest)
            → (h' : ops.Heap) × (sent : List TimeoutInfo) × (timer_round fuel r h ≡ running h' sent)
              × Permᴰ (received_in r.received ++ items h) (sent ++ items h')
              × IsAscending sent
              × AllDue r.now sent
              × AllLater r.now (items h')
            → (h' : ops.Heap) × (t : TimeoutInfo) × (sent : List TimeoutInfo) × (timer_round fuel r
                  h
                ≡ running h' (t ∷ sent))
              × (t.timestamp ≤ r.now)
        some_sent is_due p (h', t ∷ sent, run, kept, ascending, due, later) =
            (h', t, sent, run, due.0)
        some_sent is_due p (h', [], run, kept, ascending, due, later) =
            let kept' : Permᴰ (items h) (items h') = rw silent at kept in
            let late =
              All-perm (λ (u : TimeoutInfo). r.now < u.timestamp) (Permᴰ.trans (Permᴰ.symm kept') p)
                later in
            absurd (omega arith)

    sent_before-running :
        (xs : List TimeoutInfo) (h : ops.Heap) (ys : List TimeoutInfo)
        → sent_before xs (running h ys) ≡ running h (xs ++ ys)
    sent_before-running [] h ys = refl
    sent_before-running (x ∷ xs) h ys = ap (after_sending x) (sent_before-running xs h ys)

    kept_twice :
        (new old rest held sent sent' left : List TimeoutInfo)
        → Permᴰ (new ++ held) (sent ++ rest)
        → Permᴰ (old ++ rest) (sent' ++ left)
        → Permᴰ ((new ++ old) ++ held) ((sent ++ sent') ++ left)
    kept_twice new old rest held sent sent' left p q =
        let a = Permᴰ.append_right held (Permᴰ.append_comm new old) in
        let b = rw (append_assoc old new held) at a in
        let c = Permᴰ.trans b (Permᴰ.append_left old p) in
        let d = rw (← append_assoc old sent rest) at c in
        let e = Permᴰ.trans d (Permᴰ.append_right rest (Permᴰ.append_comm old sent)) in
        let f = rw (append_assoc sent old rest) at e in
        rw (append_assoc sent sent' left) (Permᴰ.trans f (Permᴰ.append_left sent q))

    timer_run-step :
        (fuel : ℕ) (r : Round) (rs : List Round) (h h₁ h' : ops.Heap)
        (sent sent' : List TimeoutInfo)
        → timer_round fuel r h ≡ running h₁ sent
        → timer_run fuel rs h₁ ≡ running h' sent'
        → timer_run fuel (r ∷ rs) h ≡ running h' (sent ++ sent')
    unfolding timer_run
    timer_run-step fuel r rs h h₁ h' sent sent' run runs =
        rw (timer_run, run, runs) (sent_before-running sent h' sent')

    -- The loop over any rounds with an open channel, on more fuel than the timeouts that it can come
    -- to hold: it goes on, and every timeout that the heap held or a round received is sent exactly
    -- once or is in the heap at the end.
    pub timer_run_lem :
        (fuel : ℕ) (rs : List Round) (h : ops.Heap)
        → length (items h) + length rs + 1 < fuel
        → AllOpen rs
        → (h' : ops.Heap) × (sent : List TimeoutInfo) × (timer_run fuel rs h ≡ running h' sent)
          × Permᴰ (all_received rs ++ items h) (sent ++ items h')
    unfolding timer_run
    timer_run_lem fuel [] h enough is_open = (h, [], refl, Permᴰ.refl (items h))
    timer_run_lem fuel (r ∷ rs) h enough is_open =
        let (h₁, sent, run, kept, ascending, due, later) =
          timer_round_lem fuel r h (omega arith) is_open.0 in
        let size = length-perm kept in
        let (h', sent', runs, kept') =
          timer_run_lem fuel rs h₁
            (ground (
              arith,
              length-append (received_in r.received) (items h),
              length-append sent (items h₁),
            ))
            is_open.1 in
        (
          h',
          sent ++ sent',
          timer_run-step fuel r rs h h₁ h' sent sent' run runs,
          kept_twice (received_in r.received) (all_received rs) (items h₁) (items h) sent sent'
              (items h') kept kept',
        )
