-- ===== src/Machine/Monad/Keeps.antt =====
-- What a method keeps, whether it returns or fails: one rule for each way to build a method.
use bft_rs.Prelude.{
  Bool, true, false, Option, none, some, BftResult, BftError, ok, err, panic, if◌then◌else◌,
}
use bft_rs.Env.{Env}
use bft_rs.Machine.State.{Bft}
use bft_rs.Machine.Monad.{
  M, pure, raise, get, modify, lift, need, unwrap, handle_err, continue, ◌>>=◌,
}

module _ ⦃env : Env⦄ where
  pub record Keeps {A : Type 0} (P : Bft → Type 0) (m : M A) : Type 0 where
    pub at : (s : Bft) → P s → P (m s).1

  module _ {A : Type 0} {P : Bft → Type 0} where
    pub Keeps-pure : (a : A) → Keeps P (pure a)
    unfolding pure
    Keeps-pure a = record { at = λ s h. h }

    pub Keeps-raise : (e : BftError) → Keeps P (raise {A = A} e)
    unfolding raise
    Keeps-raise e = record { at = λ s h. h }

    pub Keeps-lift : (r : BftResult A) → Keeps P (lift r)
    unfolding lift
    Keeps-lift r = record { at = λ s h. h }

    pub Keeps-need : (e : BftError) (o : Option A) → Keeps P (need e o)
    unfolding need
    Keeps-need e none = record { at = λ s h. h }
    Keeps-need e (some a) = record { at = λ s h. h }

    pub Keeps-unwrap : (o : Option A) → Keeps P (unwrap o)
    unfolding unwrap
    Keeps-unwrap none = record { at = λ s h. h }
    Keeps-unwrap (some a) = record { at = λ s h. h }

    pub Keeps-handle_err : (m : M A) → Keeps P m → Keeps P (handle_err m)
    unfolding handle_err
    Keeps-handle_err m km = record { at = λ s h. km.at s h }

    pub Keeps-if : (b : Bool) (m n : M A) → Keeps P m → Keeps P n → Keeps P (if b then m else n)
    Keeps-if true m n km kn = km
    Keeps-if false m n km kn = kn

  module _ {P : Bft → Type 0} where
    pub Keeps-get : Keeps P get
    unfolding get
    Keeps-get = record { at = λ s h. h }

    pub Keeps-modify : (f : Bft → Bft) → ((s : Bft) → P s → P (f s)) → Keeps P (modify f)
    unfolding modify
    Keeps-modify f kf = record { at = kf }

  module _ {A B : Type 0} {P : Bft → Type 0} where
    pub Keeps-bind :
        (m : M A) (f : A → M B) → Keeps P m → ((a : A) → Keeps P (f a)) → Keeps P (m >>= f)
    unfolding ◌>>=◌
    Keeps-bind m f km kf = record { at = λ s h. after (m s) (km.at s h) }
      where
        after : (r : BftResult A × Bft) → P r.1 → P (continue r.0 f r.1).1
        after (ok a, s) h = (kf a).at s h
        after (err e, s) h = h
        after (panic, s) h = h

  pub Keeps-both :
      {A : Type 0} {P Q : Bft → Type 0} (m : M A) → Keeps P m → Keeps Q m → Keeps (λ s. P s × Q s) m
  Keeps-both m kp kq = record { at = λ s h. (kp.at s h.0, kq.at s h.1) }

  -- What is read is the state, so it has the condition.
  pub Keeps-get-bind :
      {B : Type 0} {P : Bft → Type 0} (f : Bft → M B)
      → ((s : Bft) → P s → Keeps P (f s))
      → Keeps P (get >>= f)
  unfolding ◌>>=◌
  Keeps-get-bind f kf = record { at = λ s h. (kf s h).at s h }

  -- A call that keeps one condition, and then one that leads from it to another.
  pub bind-leads :
      {A B : Type 0} {P Q : Bft → Type 0} (m : M A) (f : A → M B)
      → Keeps P m
      → ((s : Bft) → P s → Q s)
      → ((a : A) (s : Bft) → P s → Q (f a s).1)
      → (s : Bft) → P s
      → Q ((m >>= f) s).1
  unfolding ◌>>=◌
  bind-leads {A = A} {P = P} {Q = Q} m f km weaken kf s h = after (m s) (km.at s h)
    where
      after : (r : BftResult A × Bft) → P r.1 → Q (continue r.0 f r.1).1
      after (ok a, s) h = kf a s h
      after (err e, s) h = weaken s h
      after (panic, s) h = weaken s h

pub ruleset keeps_rules = (
  Keeps-pure, Keeps-raise, Keeps-lift, Keeps-need, Keeps-unwrap, Keeps-handle_err, Keeps-if,
  Keeps-get, Keeps-modify, Keeps-bind,
)
