-- ===== src/Prelude/Results.antt =====
-- `BftResult` (src/error.rs), with a panic as a third outcome.
use mathlib.Core.Path.{◌≡◌, refl}
use mathlib.Core.Logic.{◌⊎◌, inl, inr}
use mathlib.Core.Option.{Option, none, some}

-- The variants of `BftError`, without their message.
pub data BftError : Type 0 where
  should_not_happen send_msg_err recv_msg_err recv_msg_again obsolete_msg higher_msg : BftError
  decode_err save_wal_err invalid_sender mismatching_block check_block_failed : BftError
  check_tx_failed check_sig_failed check_proof_failed check_lock_votes_failed : BftError
  sign_failed commit_failed get_block_failed not_ready obsolete_timer : BftError

pub data BftResult {ℓ} (A : Type ℓ) : Type ℓ where
  ok : A → BftResult A
  err : BftError → BftResult A
  panic : BftResult A

infixl 5 ◌>>=◌
abbrev pub ◌>>=◌ {ℓ κ} : {A : Type ℓ} {B : Type κ} → BftResult A → (A → BftResult B) → BftResult B
ok a >>= f = f a
err e >>= f = err e
panic >>= f = panic

-- `ok_or_else(|| e)`
abbrev pub ok_or {ℓ} : {A : Type ℓ} → BftError → Option A → BftResult A
ok_or e none = err e
ok_or e (some a) = ok a

pub BftResult-cases {ℓ} :
    {A : Type ℓ} (r : BftResult A)
    → ((a : A) × (r ≡ ok a)) ⊎ (((e : BftError) × (r ≡ err e)) ⊎ (r ≡ panic))
BftResult-cases (ok a) = inl (a, refl)
BftResult-cases (err e) = inr (inl (e, refl))
BftResult-cases panic = inr (inr refl)
