-- ===== src/Machine/Params.antt =====
-- The parameters and the timer settings of src/params.rs.
use bft_rs.Prelude.{ℕ, ◌*◌, ◌/◌, mul64}
use bft_rs.Objects.{Address}

-- `total_duration` is in milliseconds, the fractions are pairs of a numerator and a denominator.
pub record BftTimer : Type 0 where
  pub total_duration : ℕ
  pub propose : ℕ × ℕ
  pub prevote : ℕ × ℕ
  pub precommit : ℕ × ℕ

-- `BftTimer::default`
abbrev pub timer_default : BftTimer
timer_default = record {
  total_duration = 3000;
  propose = (24, 30);
  prevote = (1, 30);
  precommit = (1, 30);
}

abbrev pub set_total_duration : ℕ → BftTimer → BftTimer
set_total_duration duration timer = record timer { total_duration = duration }

-- A fraction of the total duration, in nanoseconds.
abbrev pub duration_of : ℕ → ℕ × ℕ → ℕ
duration_of total_duration fraction = mul64 total_duration fraction.0 / fraction.1 * 1000000

unfoldable pub get_propose : BftTimer → ℕ
get_propose timer = duration_of timer.total_duration timer.propose

unfoldable pub get_prevote : BftTimer → ℕ
get_prevote timer = duration_of timer.total_duration timer.prevote

unfoldable pub get_precommit : BftTimer → ℕ
get_precommit timer = duration_of timer.total_duration timer.precommit

unfoldable pub get_total_duration : BftTimer → ℕ
get_total_duration timer = timer.total_duration * 1000000

pub record BftParams : Type 0 where
  pub address : Address
  pub timer : BftTimer

-- `BftParams::new`
abbrev pub params_new : Address → BftParams
params_new local_address = record { address = local_address; timer = timer_default }
