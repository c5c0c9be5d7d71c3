-- ===== src/Machine/Monad.antt =====
-- A method of `Bft`: it changes the state, and returns a `BftResult`. What it changed before an
-- error stays changed.
pub mod Keeps
pub mod Reads
use bft_rs.Prelude.{Bool, Option, none, some, BftResult, BftError, ok, err, panic, if◌then◌else◌}
use bft_rs.Env.{Env}
use bft_rs.Machine.State.{Bft}

module _ ⦃env : Env⦄ where
  abbrev pub M : Type 0 → Type 0
  M A = Bft → BftResult A × Bft

  pub pure : {A : Type 0} → A → M A
  pure a s = (ok a, s)

  pub raise : {A : Type 0} → BftError → M A
  raise e s = (err e, s)

  pub panics : {A : Type 0} → M A
  panics s = (panic, s)

  pub get : M Bft
  get s = (ok s, s)

  pub modify : (Bft → Bft) → M (Unit {0})
  modify f s = (ok tt, f s)

  pub lift : {A : Type 0} → BftResult A → M A
  lift r s = (r, s)

  -- `ok_or_else(...)?`
  pub need : {A : Type 0} → BftError → Option A → M A
  need e none s = (err e, s)
  need e (some a) s = (ok a, s)

  -- `clone().unwrap()` of an `Option`.
  pub unwrap : {A : Type 0} → Option A → M A
  unwrap none s = (panic, s)
  unwrap (some a) s = (ok a, s)

  abbrev forgive : {A : Type 0} → BftResult A → BftResult (Unit {0})
  forgive panic = panic
  forgive _ = ok tt

  -- `handle_err(m)` of src/error.rs: an error is only logged.
  pub handle_err : {A : Type 0} → M A → M (Unit {0})
  handle_err m s = let (r, s') = m s in (forgive r, s')

  abbrev pub continue : {A B : Type 0} → BftResult A → (A → M B) → M B
  continue (ok a) f s = f a s
  continue (err e) f s = (err e, s)
  continue panic f s = (panic, s)

  infixl 5 ◌>>=◌ ◌>>◌
  -- Opening this opens the other ways to build a method.
  unfoldable pub ◌>>=◌ : {A B : Type 0} → M A → (A → M B) → M B
  unfolding pure raise panics get modify lift need unwrap handle_err
  ◌>>=◌ m f s = let (r, s') = m s in continue r f s'

  abbrev pub ◌>>◌ : {B : Type 0} → M (Unit {0}) → M B → M B
  m >> k = m >>= λ _. k

  abbrev pub done : M (Unit {0})
  done = pure tt

  -- `if b { m }`
  abbrev pub when : Bool → M (Unit {0}) → M (Unit {0})
  when b m = if b then m else done
