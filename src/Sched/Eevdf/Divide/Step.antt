-- ===== src/Sched/Eevdf/Divide/Step.antt =====
-- crates/thekernel-axsched/src/eevdf_model.rs: one round of `checked_div_129`.
use thekernel_ax.Prelude.{ℕ, ◌+◌, ◌*◌, ◌<◌, ◌≡◌, Bool, arith}
use thekernel_ax.Sched.Eevdf.Divide.{from_bit, div_step}

-- A round divides `2 * remainder + bit`: the bit and the remainder are its quotient and remainder.
pub div_step_lem :
    (d r : ℕ) (b : Bool)
    → r < d
    → ((div_step d r b).1 < d)
      × (2 * r + from_bit b ≡ from_bit (div_step d r b).0 * d + (div_step d r b).1)
unfolding div_step
div_step_lem d r b h = ground arith
