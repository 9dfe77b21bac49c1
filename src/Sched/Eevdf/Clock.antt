-- ===== src/Sched/Eevdf/Clock.antt =====
-- crates/thekernel-axsched/src/eevdf_model.rs: `Clock`, the virtual time of a fair queue. A method
-- that takes `&mut self` returns the new clock; an error leaves the caller with the old one.
pub mod Work
pub mod Weight
use thekernel_ax.Prelude.{ℕ, ◌-◌, ◌||◌, ltb, leb, ◌==◌, if◌then◌else◌}
use thekernel_ax.Prelude.Int.{ℤ, pos, ltb_ℤ}
use thekernel_ax.Prelude.Result.{Result, err, ok, ◌>>=◌}
use thekernel_ax.Sched.Eevdf.Word.{
  work_unit, ModelError, invalid_weight, invalid_state, add_u128, add_i128, checked_i128,
  checked_mul_i128_u128,
}
use thekernel_ax.Sched.Eevdf.MulDiv.{
  div_sum, checked_mul_div_rem, checked_mul_div_round_nearest_even,
}

pub record Clock : Type 0 where
  pub v : ℤ
  pub remainder : ℕ
  pub total_weight : ℕ
  pub accounted_ticks : ℕ

pub record ClockAdvance : Type 0 where
  pub v : ℤ
  pub remainder : ℕ
  pub accounted_ticks : ℕ
  pub delta_v : ℤ

-- `Clock::at`; `Clock::new` is this at zero.
abbrev pub clock_at : ℤ → ℕ → Clock
clock_at v total_weight = record {
  v = v;
  remainder = 0;
  total_weight = total_weight;
  accounted_ticks = 0;
}

abbrev pub new_clock : ℕ → Clock
new_clock total_weight = clock_at (pos 0) total_weight

unfoldable pub with_parts : ℤ → ℕ → ℕ → ℕ → Clock
with_parts v remainder total_weight accounted_ticks = record {
  v = v;
  remainder = if total_weight == 0 then 0 else remainder;
  total_weight = total_weight;
  accounted_ticks = accounted_ticks;
}

-- The two previews from the quotient and the remainder of the work by the total weight on.
abbrev pub carry_remainder : Clock → ℕ × ℕ → ℕ → Result ModelError ClockAdvance
carry_remainder c product ticks = div_sum product.1 c.remainder c.total_weight >>= λ carried.
    add_u128 product.0 carried.0 >>= λ delta_v_u128. checked_i128 delta_v_u128 >>= λ delta_v.
    add_i128 c.v delta_v >>= λ v. add_u128 c.accounted_ticks ticks >>= λ accounted_ticks.
    ok (record {
      v = v;
      remainder = carried.1;
      accounted_ticks = accounted_ticks;
      delta_v = delta_v;
    })

-- The preview of no work.
abbrev pub idle_preview : Clock → ℕ → Result ModelError ClockAdvance
idle_preview c ticks = add_u128 c.accounted_ticks ticks >>= λ accounted_ticks. ok (record {
  v = c.v;
  remainder = c.remainder;
  accounted_ticks = accounted_ticks;
  delta_v = pos 0;
})

unfoldable pub preview_work_with_ticks : Clock → ℕ → ℕ → Result ModelError ClockAdvance
preview_work_with_ticks c work accounted_tick_delta =
    if work == 0
    then idle_preview c accounted_tick_delta
    else if c.total_weight == 0
    then err invalid_weight
    else if leb c.total_weight c.remainder
    then err invalid_state
    else checked_mul_div_rem work 1 c.total_weight >>= λ product.
        carry_remainder c product accounted_tick_delta

unfoldable pub preview_work : Clock → ℕ → Result ModelError ClockAdvance
unfolding preview_work_with_ticks
preview_work c work = preview_work_with_ticks c work 0

unfoldable pub preview_advance : Clock → ℕ → Result ModelError ClockAdvance
unfolding preview_work_with_ticks
preview_advance c ticks =
    if ticks == 0
    then preview_work_with_ticks c 0 0
    else if c.total_weight == 0
    then err invalid_weight
    else if leb c.total_weight c.remainder
    then err invalid_state
    else checked_mul_div_rem ticks work_unit c.total_weight >>= λ product.
        carry_remainder c product ticks

unfoldable pub advance_ticks : Clock → ℕ → Result ModelError (Clock × ℤ)
unfolding preview_advance
advance_ticks c ticks = preview_advance c ticks >>= λ next. ok (
  record c { v = next.v; remainder = next.remainder; accounted_ticks = next.accounted_ticks },
  next.delta_v,
)

unfoldable pub advance_work : Clock → ℕ → Result ModelError (Clock × ℤ)
unfolding preview_work
advance_work c work = preview_work c work >>= λ next.
    ok (record c { v = next.v; remainder = next.remainder }, next.delta_v)

unfoldable pub jump_to : Clock → ℤ → Result ModelError Clock
jump_to c v = if ltb_ℤ v c.v then err invalid_state else ok (record c { v = v })

-- A rounded residue that reaches the new weight is carried into `v`.
abbrev pub rescaled : Clock → ℕ → ℕ → Result ModelError Clock
rescaled c total_weight residue =
    if residue == total_weight
    then (add_i128 c.v (pos 1) >>= λ v.
        ok (record c { v = v; remainder = 0; total_weight = total_weight }))
    else if ltb residue total_weight
    then ok (record c { remainder = residue; total_weight = total_weight })
    else err invalid_state

unfoldable pub set_total_weight : Clock → ℕ → Result ModelError Clock
set_total_weight c total_weight =
    if c.total_weight == total_weight
    then ok (if total_weight == 0 then record c { remainder = 0 } else c)
    else if c.total_weight == 0 || total_weight == 0
    then ok (record c { total_weight = total_weight; remainder = 0 })
    else if leb c.total_weight c.remainder
    then err invalid_state
    else checked_mul_div_round_nearest_even c.remainder total_weight c.total_weight >>= λ residue.
        rescaled c total_weight residue

unfoldable pub checked_add_weight : Clock → ℕ → Result ModelError Clock
unfolding set_total_weight
checked_add_weight c weight =
    add_u128 c.total_weight weight >>= λ total_weight. set_total_weight c total_weight

unfoldable pub checked_sub_weight : Clock → ℕ → Result ModelError Clock
unfolding set_total_weight
checked_sub_weight c weight =
    if ltb c.total_weight weight
    then err invalid_weight
    else set_total_weight c (c.total_weight - weight)

unfoldable pub work_balance : Clock → Result ModelError ℤ
work_balance c =
    if c.total_weight == 0
    then if c.remainder == 0 then ok (pos 0) else err invalid_state
    else checked_mul_i128_u128 c.v c.total_weight >>= λ whole.
        checked_i128 c.remainder >>= λ part. add_i128 whole part
