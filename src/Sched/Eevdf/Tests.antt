-- ===== src/Sched/Eevdf/Tests.antt =====
-- crates/thekernel-axsched/src/eevdf_model.rs: runs of the model at concrete values.
use thekernel_ax.Prelude.{
  ℕ, ◌+◌, ◌*◌, ◌^◌, ◌<◌, ◌≤◌, ◌≡◌, ◌↔◌, ◌≢◌, refl, arith, true, false, ltb, if◌then◌else◌, none,
  min,
}
use thekernel_ax.Prelude.Bits.{bit}
use thekernel_ax.Prelude.Int.{ℤ, pos, negsuc, ◌+ℤ◌, ◌-ℤ◌, ◌≤ℤ◌}
use thekernel_ax.Prelude.Result.{err, ok, ◌>>=◌}
use thekernel_ax.Sched.Eevdf.Word.{
  u128_mod, work_unit, balanced, latency, throughput, has_power_of_two_parameters, normal,
  target_ticks, arithmetic_exhausted, checked_i128, checked_ceil_div, checked_mul_i128_u128,
}
use thekernel_ax.Sched.Eevdf.Divide.{div_step, div_loop, checked_div_129}
use thekernel_ax.Sched.Eevdf.Divide.Exact.{divided}
use thekernel_ax.Sched.Eevdf.MulDiv.{
  mul_div_loop, checked_mul_div_rem, checked_mul_div_ceil, round_up,
  checked_mul_div_round_nearest_even,
}
use thekernel_ax.Sched.Eevdf.MulDiv.Exact.{checked_mul_div_rem-eq-divided}
use thekernel_ax.Sched.Eevdf.MulDiv.Round.{ceil_div}
use thekernel_ax.Sched.Eevdf.Signed.{
  checked_work, checked_lag_at, checked_virtual_length, request_quantum, signed_ceil_neg_div,
  request_start, bias_i128, unbias_i128,
}
use thekernel_ax.Sched.Eevdf.Signed.Exact.{scale}
use thekernel_ax.Sched.Eevdf.Signed.Quantum.{bias_i128-monotone, request_quantum-share}
use thekernel_ax.Sched.Eevdf.Clock.{
  Clock, preview_work_with_ticks, preview_advance, advance_ticks, set_total_weight,
}
use thekernel_ax.Sched.Eevdf.Clock.Work.{IsValid, advance_ticks-conserves}
use thekernel_ax.Sched.Eevdf.Clock.Weight.{
  Changed, set_total_weight-IsValid, set_total_weight-rounds,
}
use thekernel_ax.Sched.Eevdf.Wide.{
  wide_mul_u128, spread_carry, wide_mul, shl1, wide_ge, wide_cmp, wide_wrapping_sub, add_one_from,
  low_u128,
}
use thekernel_ax.Sched.Eevdf.Ratio.{
  Factors, gcd_loop, gcd_u128, reduce_all, ratio_loop, checked_ratio_ceil,
}
use thekernel_ax.Sched.Eevdf.Ratio.Reduce.{numerator, denominator}
use thekernel_ax.Sched.Eevdf.Ratio.Exact.{checked_ratio_ceil-eq-ceil}
use thekernel_ax.Sched.Eevdf.Request.{
  Request, projection, exact_valid, set_fraction, set_quantum, new_request,
}
use thekernel_ax.Sched.Eevdf.Request.Projection.{projection-eq-ceil, set_quantum-back}
use thekernel_ax.Sched.Eevdf.Request.Service.{next_after_service, consume_work_up_to}
use thekernel_ax.Sched.Eevdf.Entity.{
  Entity, is_sleeping, lag_at, with_lag, eligible_at, bounded_sleeper_decay, credit_cap, grace,
  decay_window, capped,
}
use thekernel_ax.Sched.Eevdf.Entity.Decay.{Between, bounded_sleeper_decay-Between}
use thekernel_ax.Sched.Eevdf.Entity.Eligible.{lag_line, eligible_at-IsFirst}
use thekernel_ax.Sched.Eevdf.Entity.Service.{service}
use thekernel_ax.Sched.Eevdf.Entity.Conserve.{Served, service_work, service-Served}
use thekernel_ax.Sched.Eevdf.Entity.Migration.{
  migration_snapshot, from_migration, IsMigratable, migration-arrives,
}

profiles_are_powers_of_two :
    (has_power_of_two_parameters latency ≡ true)
    × (has_power_of_two_parameters throughput ≡ true)
    × (has_power_of_two_parameters balanced ≡ true)
profiles_are_powers_of_two = (refl, refl, refl)

-- 9 * 2 ^ 125, divided by 2, needs the fixed-width path.
wide_product : checked_mul_div_rem (2 ^ 127) 9 8 ≡ ok (9 * 2 ^ 124, 0)
unfolding checked_mul_div_rem mul_div_loop checked_div_129 div_loop div_step bit
wide_product = refl

wide_product_exhausted : checked_mul_div_rem (2 ^ 127) 9 4 ≡ err arithmetic_exhausted
unfolding checked_mul_div_rem mul_div_loop checked_div_129 div_loop div_step bit
wide_product_exhausted = refl

checked_mul_div_rem-eq-divided_example : checked_mul_div_rem (2 ^ 127) 9 8 ≡ divided (2 ^ 127 * 9) 8
checked_mul_div_rem-eq-divided_example =
    checked_mul_div_rem-eq-divided (2 ^ 127) 9 8 (omega arith) (omega arith) (omega arith)

abbrev wide_factors : Factors
wide_factors = record {
  numerator_0 = 2 ^ 100 + 1;
  numerator_1 = 3 ^ 60;
  numerator_2 = 2 ^ 42;
  denominator_0 = 2 ^ 120;
  denominator_1 = 7;
}

wide_ratio : checked_ratio_ceil wide_factors ≡ ok 25400200674053203323545599764689624
unfolding checked_ratio_ceil reduce_all gcd_u128 gcd_loop checked_ceil_div wide_mul_u128
    spread_carry wide_mul ratio_loop shl1 wide_ge wide_cmp wide_wrapping_sub add_one_from low_u128
    bit
wide_ratio = refl

checked_ratio_ceil-eq-ceil_example : checked_ratio_ceil wide_factors ≡ (
    if ltb (ceil_div (numerator wide_factors) (denominator wide_factors)) u128_mod
    then ok (ceil_div (numerator wide_factors) (denominator wide_factors))
    else err arithmetic_exhausted)
checked_ratio_ceil-eq-ceil_example =
    checked_ratio_ceil-eq-ceil wide_factors (omega arith) (omega arith) (omega arith) (omega arith)
      (omega arith) (omega arith) (omega arith) (omega arith)

request_quantum-share_example :
    (q : ℕ) × (request_quantum balanced normal 1000 3000 ≡ ok q)
    × (1 ≤ q)
    × (q ≤ target_ticks balanced normal)
    × (target_ticks balanced normal * min 1000 3000 ≤ q * 3000)
    × (q * 3000 < target_ticks balanced normal * min 1000 3000 + 3000)
unfolding target_ticks
request_quantum-share_example =
    request_quantum-share balanced normal 1000 3000 (omega arith) (omega arith) (omega arith)
      (omega arith) (omega arith) (omega arith)

bias_i128-monotone_example :
    (bias_i128 (negsuc 2) < u128_mod)
    × (unbias_i128 (bias_i128 (negsuc 2)) ≡ negsuc 2)
    × ((negsuc 2 ≤ℤ pos 4) ↔ (bias_i128 (negsuc 2) ≤ bias_i128 (pos 4)))
bias_i128-monotone_example = bias_i128-monotone (negsuc 2) (pos 4) (omega arith) (omega arith)

projection-eq-ceil_example :
    projection 8 2 3
    ≡ ok (ceil_div (2 * 8 * work_unit) 3, ceil_div (ceil_div (2 * 8 * work_unit) 3) work_unit)
projection-eq-ceil_example =
    projection-eq-ceil 8 2 3 (omega arith) (omega arith) (omega arith) (omega arith) (omega arith)

-- Two thirds of three ticks, and of eight.
abbrev two_thirds : Request
two_thirds = record {
  kind = normal;
  q = 3;
  remaining_ticks = 2;
  remaining_work = 8796093022208;
  remaining_fraction_num = 2;
  remaining_fraction_den = 3;
  virtual_length = pos 13194139534;
  start = pos 2;
  deadline = pos 13194139536;
}

abbrev two_thirds_of_eight : Request
two_thirds_of_eight = record two_thirds {
  q = 8;
  remaining_ticks = 6;
  remaining_work = 23456248059222;
}

two_thirds_consistent : exact_valid two_thirds ≡ ok tt
unfolding exact_valid projection checked_mul_div_rem checked_ceil_div
two_thirds_consistent = refl

quantum_changed : set_quantum two_thirds 8 ≡ ok two_thirds_of_eight
unfolding set_quantum projection checked_mul_div_rem checked_mul_div_ceil checked_ceil_div
quantum_changed = refl

set_quantum-back_example :
    (two_thirds_of_eight.q ≡ 8)
    × (exact_valid two_thirds_of_eight ≡ ok tt)
    × (two_thirds_of_eight.remaining_fraction_num ≡ two_thirds.remaining_fraction_num)
    × (two_thirds_of_eight.remaining_fraction_den ≡ two_thirds.remaining_fraction_den)
    × (set_quantum two_thirds_of_eight 3 ≡ ok two_thirds)
set_quantum-back_example =
    set_quantum-back two_thirds two_thirds_of_eight 8 two_thirds_consistent quantum_changed

abbrev start_clock : Clock
start_clock = record { v = pos 5; remainder = 1; total_weight = 3000; accounted_ticks = 7 }

abbrev three_ticks_later : Clock
three_ticks_later = record {
  v = pos 4398046516;
  remainder = 313;
  total_weight = 3000;
  accounted_ticks = 10;
}

clock_advances : advance_ticks start_clock 3 ≡ ok (three_ticks_later, pos 4398046511)
unfolding advance_ticks preview_advance checked_mul_div_rem checked_i128 checked_div_129 div_loop
    div_step bit ◌+ℤ◌
clock_advances = refl

start_clock-IsValid : IsValid start_clock
start_clock-IsValid = omega arith

has_weight : start_clock.total_weight ≢ 0
has_weight = λ h. absurd (omega arith)

advance_ticks-conserves_example :
    IsValid three_ticks_later
    × (scale (pos 4398046516) 3000 +ℤ pos 313 ≡ scale (pos 5) 3000 +ℤ pos (1 + 3 * work_unit))
    × (three_ticks_later.total_weight ≡ start_clock.total_weight)
    × (three_ticks_later.accounted_ticks ≡ start_clock.accounted_ticks + 3)
    × (pos 4398046516 ≡ pos 5 +ℤ pos 4398046511)
advance_ticks-conserves_example =
    advance_ticks-conserves start_clock three_ticks_later 3 (pos 4398046511) start_clock-IsValid
      has_weight (omega arith) clock_advances

set_total_weight-IsValid_example :
    (d : Clock) × (set_total_weight start_clock 5000 ≡ ok d) × Changed start_clock 5000 d
set_total_weight-IsValid_example =
    set_total_weight-IsValid start_clock 5000 start_clock-IsValid (omega arith) (omega arith)

-- 1 / 3000 of a unit is 2 / 5000, to the nearest.
abbrev heavier_clock : Clock
heavier_clock = record start_clock { remainder = 2; total_weight = 5000 }

weight_changed : set_total_weight start_clock 5000 ≡ ok heavier_clock
unfolding set_total_weight checked_mul_div_round_nearest_even checked_mul_div_rem round_up
weight_changed = refl

set_total_weight-rounds_example :
    (units : ℕ) × (scale heavier_clock.v 5000 +ℤ pos heavier_clock.remainder
      ≡ scale start_clock.v 5000 +ℤ pos units)
    × (2 * (units * 3000) ≤ 2 * (1 * 5000) + 3000)
    × (2 * (1 * 5000) ≤ 2 * (units * 3000) + 3000)
set_total_weight-rounds_example =
    set_total_weight-rounds start_clock heavier_clock 5000 start_clock-IsValid (omega arith)
      has_weight (λ h. absurd (omega arith)) weight_changed

-- A full request of three ticks, and the entity after one of them.
abbrev start_entity : Entity
start_entity = record {
  kind = normal;
  weight = 1000;
  lag = pos 5;
  lag_stamp = pos 2;
  request = record two_thirds {
    remaining_ticks = 3;
    remaining_work = 13194139533312;
    remaining_fraction_num = 1;
    remaining_fraction_den = 1;
  };
  sleeper_v = none;
}

abbrev served_entity : Entity
served_entity = record start_entity {
  lag = negsuc 2932031005098;
  lag_stamp = pos 1466015508;
  request = two_thirds;
}

abbrev served_clock : Clock
served_clock = record start_clock { v = pos 1466015508; remainder = 2105; accounted_ticks = 8 }

entity_admitted : with_lag balanced normal 1000 3000 (pos 2) (pos 5) ≡ ok start_entity
unfolding with_lag new_request request_quantum checked_mul_div_ceil checked_mul_div_rem
    checked_virtual_length checked_i128 request_start signed_ceil_neg_div set_fraction projection
    checked_ceil_div gcd_u128 gcd_loop ◌+ℤ◌ target_ticks
entity_admitted = refl

entity_served :
    service start_entity start_clock 1 0 ≡ ok (served_entity, served_clock, pos 1466015503)
unfolding service checked_mul_div_ceil checked_mul_div_rem checked_i128 set_fraction projection
    checked_ceil_div gcd_u128 gcd_loop checked_lag_at checked_mul_i128_u128 checked_work
    preview_work_with_ticks checked_div_129 div_loop div_step bit ◌+ℤ◌ ◌-ℤ◌ consume_work_up_to
    next_after_service exact_valid
entity_served = refl

service-Served_example :
    Served start_entity start_clock (service_work 1 0) 1 served_entity served_clock
service-Served_example =
    service-Served start_entity served_entity start_clock served_clock 1 0 (pos 1466015503)
      start_clock-IsValid has_weight (omega arith) entity_served

paid_at : eligible_at served_entity ≡ ok (pos 4398046514)
unfolding eligible_at checked_ceil_div checked_i128 ◌+ℤ◌
paid_at = refl

eligible_at-IsFirst_example :
    (pos 0 ≤ℤ lag_line served_entity (pos 4398046514))
    × (pos 0 ≤ℤ served_entity.lag → pos 4398046514 ≡ served_entity.lag_stamp)
    × (served_entity.lag ≤ℤ negsuc 0 → lag_line served_entity (pos 4398046514 -ℤ pos 1) ≤ℤ negsuc 0)
eligible_at-IsFirst_example =
    eligible_at-IsFirst served_entity (pos 4398046514) (omega arith) (omega arith) paid_at

bounded_sleeper_decay-Between_example :
    (r : ℤ) × (bounded_sleeper_decay balanced normal (negsuc 4) (pos (2 ^ 36)) ≡ ok r)
    × Between (credit_cap balanced normal) (negsuc 4) r
    × (2 ^ 36 ≤ grace balanced → r ≡ capped (credit_cap balanced normal) (negsuc 4))
    × (grace balanced + decay_window balanced ≤ 2 ^ 36 → grace balanced < 2 ^ 36 → r ≡ pos 0)
unfolding target_ticks
bounded_sleeper_decay-Between_example =
    bounded_sleeper_decay-Between balanced normal (negsuc 4) (2 ^ 36) (omega arith) (omega arith)
      (omega arith)

start_entity-IsMigratable : IsMigratable balanced start_entity (pos 2) (pos 5)
unfolding lag_at checked_lag_at checked_mul_i128_u128 exact_valid projection checked_mul_div_rem
    checked_ceil_div checked_virtual_length checked_mul_div_ceil checked_i128 ◌+ℤ◌ ◌-ℤ◌ target_ticks
start_entity-IsMigratable = record {
  awake = refl;
  weighed = refl;
  lag_known = refl;
  class_kept = refl;
  quantum_left = refl;
  quantum_bound = omega arith;
  ticks_bound = omega arith;
  fraction_den = refl;
  fraction_bound = omega arith;
  consistent = refl;
  length_exact = refl;
  start_fits = omega arith;
  deadline_fits = omega arith;
}

migration-arrives_example :
    (moved : Entity) × ((migration_snapshot start_entity (pos 2) >>= λ s.
    from_migration balanced s (pos 100))
      ≡ ok moved)
    × (moved.lag ≡ pos 5)
    × (moved.lag_stamp ≡ pos 100)
    × (moved.request.start -ℤ pos 100 ≡ start_entity.request.start -ℤ pos 2)
    × (moved.request.deadline -ℤ pos 100 ≡ start_entity.request.deadline -ℤ pos 2)
    × (moved.request ≡ record start_entity.request {
      start = moved.request.start;
      deadline = moved.request.deadline;
    })
    × (moved.kind ≡ start_entity.kind)
    × (moved.weight ≡ start_entity.weight)
    × (is_sleeping moved ≡ false)
unfolding ◌+ℤ◌ ◌-ℤ◌
migration-arrives_example =
    migration-arrives balanced start_entity (pos 2) (pos 100) (pos 5) start_entity-IsMigratable
      (omega arith) (omega arith)
