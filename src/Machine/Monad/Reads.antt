-- ===== src/Machine/Monad/Reads.antt =====
-- Calls that change nothing, such as the checks at the start of a method.
use bft_rs.Prelude.{
  ◌≡◌, refl, Bool, true, false, Option, none, some, BftResult, BftError, ok, err, panic, arith,
  if◌then◌else◌,
}
use bft_rs.Env.{Env}
use bft_rs.Machine.State.{Bft}
use bft_rs.Machine.Monad.Keeps.{Keeps}
use bft_rs.Machine.Monad.{
  M, ◌>>=◌, continue, when, raise, need, lift, get, modify, unwrap, modify, unwrap,
}

module _ ⦃env : Env⦄ where
  -- A call that changes nothing, and what follows it on success.
  pub bind-read :
      {A B : Type 0} (Q : Bft → Type 0) (m : M A) (f : A → M B) (s : Bft)
      → (m s).1 ≡ s
      → Q s
      → ((a : A) → (m s).0 ≡ ok a → Q (f a s).1)
      → Q ((m >>= f) s).1
  unfolding ◌>>=◌
  bind-read {A = A} Q m f s same before after = next (m s).0 (m s).1 same (λ a. after a)
    where
      next :
          (r : BftResult A) (t : Bft)
          → t ≡ s
          → ((a : A) → r ≡ ok a → Q (f a s).1)
          → Q (continue r f t).1
      next (ok a) t e k = rw e (k a refl)
      next (err x) t e k = rw e before
      next panic t e k = rw e before

  pub when-raise_reads : (b : Bool) (x : BftError) (s : Bft) → (when b (raise x) s).1 ≡ s
  unfolding ◌>>=◌
  when-raise_reads b x s = ground arith

  pub when-raise_passes :
      (b : Bool) (x : BftError) (s : Bft) (u : Unit {0}) → (when b (raise x) s).0 ≡ ok u → b ≡ false
  unfolding ◌>>=◌
  when-raise_passes b x s u h = ground arith

  pub need-reads : {A : Type 0} (e : BftError) (o : Option A) (s : Bft) → (need e o s).1 ≡ s
  unfolding ◌>>=◌
  need-reads e none s = refl
  need-reads e (some a) s = refl

  pub need-passes :
      {A : Type 0} (e : BftError) (o : Option A) (s : Bft) (a : A)
      → (need e o s).0 ≡ ok a
      → o ≡ some a
  unfolding ◌>>=◌
  need-passes e none s a h = cc
  need-passes e (some b) s a h = ground arith

  -- Where what follows `get` keeps to the state that it has read.
  pub bind-get :
      {B : Type 0} (Q : Bft → Type 0) (f : Bft → M B) (s : Bft) → Q (f s s).1 → Q ((get >>= f) s).1
  unfolding ◌>>=◌
  bind-get Q f s h = h

  pub when-lift_reads : (b : Bool) (r : BftResult (Unit {0})) (s : Bft) → (when b (lift r) s).1 ≡ s
  unfolding ◌>>=◌
  when-lift_reads b r s = ground arith

  pub when-lift_passes :
      (b : Bool) (r : BftResult (Unit {0})) (s : Bft) (u : Unit {0})
      → (when b (lift r) s).0 ≡ ok u
      → b ≡ true
      → r ≡ ok tt
  unfolding ◌>>=◌
  when-lift_passes b r s u h e = rw e at h

  -- A call from one state, and what keeps the condition after it.
  pub bind-at :
      {A B : Type 0} {P : Bft → Type 0} (m : M A) (f : A → M B) (s : Bft)
      → P (m s).1
      → ((a : A) → Keeps P (f a))
      → P ((m >>= f) s).1
  unfolding ◌>>=◌
  bind-at {A = A} {P = P} m f s h kf = next (m s).0 (m s).1 h
    where
      next : (r : BftResult A) (t : Bft) → P t → P (continue r f t).1
      next (ok a) t h = (kf a).at t h
      next (err x) t h = h
      next panic t h = h

  pub if-at :
      {A : Type 0} (P : Bft → Type 0) (b : Bool) (m n : M A) (s : Bft)
      → (b ≡ true → P (m s).1)
      → (b ≡ false → P (n s).1)
      → P ((if b then m else n) s).1
  if-at P true m n s h k = h refl
  if-at P false m n s h k = k refl

  pub modify-at : (P : Bft → Type 0) (f : Bft → Bft) (s : Bft) → P (f s) → P (modify f s).1
  unfolding ◌>>=◌
  modify-at P f s h = h

  pub unwrap-reads : {A : Type 0} (o : Option A) (s : Bft) → (unwrap o s).1 ≡ s
  unfolding ◌>>=◌
  unwrap-reads none s = refl
  unwrap-reads (some a) s = refl

  -- A call that has changed nothing where it succeeds, and what follows it then.
  pub bind-passed :
      {A B : Type 0} (P : Bft → Type 0) (m : M A) (f : A → M B) (s : Bft)
      → P (m s).1
      → ((a : A) → (m s).0 ≡ ok a → (m s).1 ≡ s)
      → ((a : A) → P (f a s).1)
      → P ((m >>= f) s).1
  unfolding ◌>>=◌
  bind-passed {A = A} P m f s h same k = next (m s).0 (m s).1 h same
    where
      next : (r : BftResult A) (t : Bft) → P t → ((a : A) → r ≡ ok a → t ≡ s) → P (continue r f t).1
      next (ok a) t h same = rw (same a refl) (k a)
      next (err x) t h same = h
      next panic t h same = h

  -- The parts of a call that returns.
  pub bind-ok :
      {A B : Type 0} (m : M A) (f : A → M B) (s : Bft) (b : B)
      → ((m >>= f) s).0 ≡ ok b
      → (a : A) × ((m s).0 ≡ ok a) × ((f a (m s).1).0 ≡ ok b)
  unfolding ◌>>=◌
  bind-ok {A = A} {B = B} m f s b h = next (m s).0 (m s).1 h
    where
      next :
          (r : BftResult A) (t : Bft)
          → (continue r f t).0 ≡ ok b
          → (a : A) × (r ≡ ok a) × ((f a t).0 ≡ ok b)
      next (ok a) t h = (a, refl, h)
      next (err x) t h = absurd (ground (arith, h))
      next panic t h = absurd (ground (arith, h))

  pub bind-read_ok :
      {A B : Type 0} (m : M A) (f : A → M B) (s : Bft) (b : B)
      → (m s).1 ≡ s
      → ((m >>= f) s).0 ≡ ok b
      → (a : A) × ((m s).0 ≡ ok a) × ((f a s).0 ≡ ok b)
  bind-read_ok m f s b same h =
      let (a, first, rest) = bind-ok m f s b h in (a, first, rw same at rest)

  pub get-ok :
      {B : Type 0} (f : Bft → M B) (s : Bft) (b : B) → ((get >>= f) s).0 ≡ ok b → (f s s).0 ≡ ok b
  unfolding ◌>>=◌
  get-ok f s b h = h

  -- What follows a call from one state may use that the call has returned.
  pub bind-gives :
      {A B : Type 0} {P : Bft → Type 0} (m : M A) (f : A → M B) (s : Bft)
      → P (m s).1
      → ((a : A) → (m s).0 ≡ ok a → Keeps P (f a))
      → P ((m >>= f) s).1
  unfolding ◌>>=◌
  bind-gives {A = A} {P = P} m f s h kf = next (m s).0 (m s).1 h (λ a e. kf a e)
    where
      next :
          (r : BftResult A) (t : Bft)
          → P t
          → ((a : A) → r ≡ ok a → Keeps P (f a))
          → P (continue r f t).1
      next (ok a) t h k = (k a refl).at t h
      next (err x) t h k = h
      next panic t h k = h
