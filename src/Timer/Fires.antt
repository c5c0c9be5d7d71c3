-- ===== src/Timer/Fires.antt =====
-- What one round of the timer's loop sends.
use bft_rs.Prelude.{
  ℕ, zero, suc, ◌≤◌, ◌<◌, ◌≡◌, refl, ap, true, List, [], ◌∷◌, ◌++◌, All, arith, length, leb,
  is_empty, Bool-cases, inl, inr,
}
use mathlib.Core.List.Permᴰ
use mathlib.Core.List.{Permᴰ}
use bft_rs.Objects.{TimeoutInfo}
use bft_rs.Timer.{MinMaxHeap, HeapLaws, running, drain}

-- In ascending order of time.
abbrev pub IsAscending : List TimeoutInfo → Type 0
IsAscending [] = Unit
IsAscending (t ∷ ts) = All (λ (u : TimeoutInfo). t.timestamp ≤ u.timestamp) ts × IsAscending ts

abbrev pub AllDue : ℕ → List TimeoutInfo → Type 0
AllDue now = All λ t. t.timestamp ≤ now

abbrev pub AllLater : ℕ → List TimeoutInfo → Type 0
AllLater now = All λ t. now < t.timestamp

pub All-perm {ℓ κ} :
    {A : Type ℓ} (P : A → Type κ) {xs ys : List A} → Permᴰ xs ys → All P xs → All P ys
All-perm P Permᴰ.nil h = h
All-perm P (Permᴰ.cons e p) h = (rw e at h.0, All-perm P p h.1)
All-perm P (Permᴰ.swap e e') h = (rw e' at h.1.0, (rw e at h.0, h.1.1))
All-perm P (Permᴰ.trans p q) h = All-perm P q (All-perm P p h)

pub length-perm {ℓ} : {A : Type ℓ} {xs ys : List A} → Permᴰ xs ys → length xs ≡ length ys
length-perm Permᴰ.nil = refl
length-perm (Permᴰ.cons e p) = ap suc (length-perm p)
length-perm (Permᴰ.swap e e') = refl
length-perm (Permᴰ.trans p q) = omega (arith, length-perm p, length-perm q)

All-append_left {ℓ κ} : {A : Type ℓ} (P : A → Type κ) (xs ys : List A) → All P (xs ++ ys) → All P xs
All-append_left P [] ys h = tt
All-append_left P (x ∷ xs) ys h = (h.0, All-append_left P xs ys h.1)

All-later :
    (now : ℕ) (t : TimeoutInfo) (ts : List TimeoutInfo)
    → now < t.timestamp
    → All (λ (u : TimeoutInfo). t.timestamp ≤ u.timestamp) ts
    → AllLater now ts
All-later now t [] late h = tt
All-later now t (u ∷ ts) late h = (omega arith, All-later now t ts late h.1)

module _ ⦃ops : MinMaxHeap⦄ (laws : HeapLaws ops) where
  open laws use {items}

  -- From one heap to another, what was sent: it is what the first holds beyond the second, in
  -- ascending order, and it was due, while what is left is not.
  pub record Fires (now : ℕ) (h h' : ops.Heap) (sent : List TimeoutInfo) : Type 0 where
    pub kept : Permᴰ (items h) (sent ++ items h')
    pub ascending : IsAscending sent
    pub due : AllDue now sent
    pub later : AllLater now (items h')

  Fires-none : (now : ℕ) (h : ops.Heap) → AllLater now (items h) → Fires now h h []
  Fires-none now h later = record {
    kept = Permᴰ.refl (items h);
    ascending = tt;
    due = tt;
    later = later;
  }

  Fires-cons :
      (now : ℕ) (h rest h' : ops.Heap) (t : TimeoutInfo) (sent : List TimeoutInfo)
      → Permᴰ (items h) (t ∷ items rest)
      → All (λ (u : TimeoutInfo). t.timestamp ≤ u.timestamp) (items rest)
      → t.timestamp ≤ now
      → Fires now rest h' sent
      → Fires now h h' (t ∷ sent)
  Fires-cons now h rest h' t sent p least is_due f = record {
    kept = Permᴰ.trans p (Permᴰ.cons refl f.kept);
    ascending = (
      All-append_left (λ (u : TimeoutInfo). t.timestamp ≤ u.timestamp) sent (items h')
          (All-perm (λ (u : TimeoutInfo). t.timestamp ≤ u.timestamp) f.kept least),
      f.ascending,
    );
    due = (is_due, f.due);
    later = f.later;
  }

  empty-later : (now : ℕ) (ts : List TimeoutInfo) → is_empty ts ≡ true → AllLater now ts
  empty-later now [] e = tt
  empty-later now (t ∷ ts) e = cc

  -- With more fuel than the heap has timeouts, and an open channel, the inner loop goes on with a
  -- heap in which nothing is due, and has sent the rest.
  pub drain_lem :
      (fuel now : ℕ) (h : ops.Heap)
      → length (items h) < fuel
      → (h' : ops.Heap) × (sent : List TimeoutInfo) × (drain fuel now true h ≡ running h' sent)
        × Fires now h h' sent
  unfolding drain
  drain_lem zero now h enough = absurd (omega arith)
  drain_lem (suc fuel) now h enough = elim (Bool-cases (ops.heap_is_empty h)) [
    | inl e ↦ (
      h,
      [],
      rw e,
      Fires-none now h (empty-later now (items h) (ground (arith, laws.empty_items h))),
    )
    | inr e ↦
        let (t, rest, peek, pop, p, least) = laws.peek_items h e in
        elim (Bool-cases (leb t.timestamp now)) [
          | inl is_due ↦
              let (h', sent, run, f) = drain_lem fuel now rest (omega (arith, length-perm p)) in
              (
                h',
                t ∷ sent,
                rw (e, peek, is_due, pop, run),
                Fires-cons now h rest h' t sent p least (ground arith) f,
              )
          | inr later ↦ (
            h,
            [],
            rw (e, peek, later),
            Fires-none now h (
                All-perm (λ (u : TimeoutInfo). now < u.timestamp) (Permᴰ.symm p)
                  (ground arith, All-later now t (items rest) (ground arith) least)),
          )
        ]
  ]
