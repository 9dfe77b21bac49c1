-- ===== src/Sched/Eevdf/Request.antt =====
-- crates/thekernel-axsched/src/eevdf_model.rs: `Request`. A method that takes `&mut self` returns
-- the new request. Every plain division here is by a greatest common divisor of which one argument
-- is checked to be no zero before.
pub mod Service
pub mod Projection
use thekernel_ax.Prelude.{ℕ, ◌/◌, Bool, not, ◌||◌, ltb, ◌==◌, if◌then◌else◌}
use thekernel_ax.Prelude.Int.{ℤ, leb_ℤ}
use thekernel_ax.Prelude.Result.{Result, err, ok, ◌>>=◌, ◌>>◌}
use thekernel_ax.Sched.Eevdf.Word.{
  EevdfProfile, RequestClass, work_unit, ModelError, invalid_weight, invalid_state, add_u128,
  mul_u128, checked_i128, checked_ceil_div,
}
use thekernel_ax.Sched.Eevdf.MulDiv.{checked_mul_div_rem, checked_mul_div_ceil}
use thekernel_ax.Sched.Eevdf.Signed.{
  checked_virtual_length, checked_deadline, request_quantum, request_start,
}
use thekernel_ax.Sched.Eevdf.Ratio.{gcd_u128, checked_ratio_ceil}

pub record Request : Type 0 where
  pub kind : RequestClass
  pub q : ℕ
  pub remaining_ticks : ℕ
  pub remaining_work : ℕ
  pub remaining_fraction_num : ℕ
  pub remaining_fraction_den : ℕ
  pub virtual_length : ℤ
  pub start : ℤ
  pub deadline : ℤ

-- The part of a tick that remains, in work units.
abbrev pub fractional_work : ℕ → ℕ → Result ModelError ℕ
fractional_work fractional_ticks fraction_den =
    if fractional_ticks == 0
    then ok 0
    else checked_mul_div_ceil fractional_ticks work_unit fraction_den

-- The remaining work and the remaining ticks.
unfoldable pub projection : ℕ → ℕ → ℕ → Result ModelError (ℕ × ℕ)
projection q fraction_num fraction_den =
    if q == 0 || fraction_den == 0 || ltb fraction_den fraction_num
    then err invalid_state
    else checked_mul_div_rem fraction_num q fraction_den >>= λ ticks.
        fractional_work ticks.1 fraction_den >>= λ part.
        mul_u128 ticks.0 work_unit >>= λ whole_work. add_u128 whole_work part >>= λ remaining_work.
        checked_ceil_div remaining_work work_unit >>= λ remaining_ticks.
        ok (remaining_work, remaining_ticks)

unfoldable pub exact_valid : Request → Result ModelError (Unit {0})
exact_valid r = projection r.q r.remaining_fraction_num r.remaining_fraction_den >>= λ projected.
    if not (projected.0 == r.remaining_work) || not (projected.1 == r.remaining_ticks)
    then err invalid_state
    else ok tt

unfoldable pub remaining_virtual_length : Request → ℕ → Result ModelError ℤ
remaining_virtual_length r weight =
    if weight == 0
    then err invalid_weight
    else exact_valid r
      >> (checked_ratio_ceil (record {
        numerator_0 = r.remaining_fraction_num;
        numerator_1 = r.q;
        numerator_2 = work_unit;
        denominator_0 = r.remaining_fraction_den;
        denominator_1 = weight;
      })
          >>= λ length. checked_i128 length)

-- The fraction in lowest terms.
abbrev pub lowest_terms : ℕ → ℕ → ℕ × ℕ
lowest_terms num den =
    if gcd_u128 num den == 0 then (0, 1) else (num / gcd_u128 num den, den / gcd_u128 num den)

unfoldable pub set_fraction : Request → ℕ → ℕ → Result ModelError Request
set_fraction r num den =
    projection r.q (lowest_terms num den).0 (lowest_terms num den).1 >>= λ projected. ok (record r {
      remaining_fraction_num = (lowest_terms num den).0;
      remaining_fraction_den = (lowest_terms num den).1;
      remaining_work = projected.0;
      remaining_ticks = projected.1;
    })

unfoldable pub set_quantum : Request → ℕ → Result ModelError Request
set_quantum r q =
    if q == 0
    then err invalid_state
    else projection q r.remaining_fraction_num r.remaining_fraction_den >>= λ projected.
        ok (record r { q = q; remaining_work = projected.0; remaining_ticks = projected.1 })

unfoldable pub new_request : EevdfProfile → RequestClass → ℕ → ℕ → ℤ → ℤ → Result ModelError Request
new_request profile kind weight total_weight v materialized_lag =
    request_quantum profile kind weight total_weight >>= λ q.
    checked_virtual_length q weight >>= λ virtual_length.
    request_start v materialized_lag weight >>= λ start.
    checked_deadline start virtual_length >>= λ deadline.
    set_fraction
      (record {
        kind = kind;
        q = q;
        remaining_ticks = q;
        remaining_work = 0;
        remaining_fraction_num = 1;
        remaining_fraction_den = 1;
        virtual_length = virtual_length;
        start = start;
        deadline = deadline;
      })
      1 1

abbrev pub is_exhausted : Request → Bool
is_exhausted r = r.remaining_fraction_num == 0

abbrev pub max_ℤ : ℤ → ℤ → ℤ
max_ℤ a b = if leb_ℤ a b then b else a

unfoldable pub yielded : EevdfProfile → Request → ℕ → ℕ → ℤ → ℤ → Result ModelError Request
yielded profile r weight total_weight v materialized_lag =
    new_request profile r.kind weight total_weight v materialized_lag >>= λ next.
    checked_deadline (max_ℤ next.start r.deadline) next.virtual_length >>= λ deadline.
    ok (record next { start = max_ℤ next.start r.deadline; deadline = deadline })
