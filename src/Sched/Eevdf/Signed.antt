-- ===== src/Sched/Eevdf/Signed.antt =====
-- crates/thekernel-axsched/src/eevdf_model.rs: the functions between `unbias_i128` and
-- `request_start`.
pub mod Exact
pub mod Quantum
use thekernel_ax.Prelude.{ℕ, suc, ◌-◌, ◌/◌, ◌||◌, ltb, leb, ◌==◌, if◌then◌else◌, bit_xor, min, max}
use thekernel_ax.Prelude.Int.{ℤ, pos, negsuc}
use thekernel_ax.Prelude.Result.{Result, err, ok, ◌>>=◌}
use thekernel_ax.Sched.Eevdf.Word.{
  u128_mod, i128_half, EevdfProfile, work_unit, RequestClass, target_ticks, ModelError,
  invalid_weight, mul_u128, add_i128, sub_i128, negated, checked_i128, checked_mul_i128_u128,
  checked_ceil_div,
}
use thekernel_ax.Sched.Eevdf.MulDiv.{checked_mul_div_ceil}

-- `value as u128` and `value as i128` of a word of the other sign.
unfoldable pub to_u128 : ℤ → ℕ
to_u128 (pos n) = n
to_u128 (negsuc n) = u128_mod - suc n

unfoldable pub to_i128 : ℕ → ℤ
to_i128 n = if ltb n i128_half then pos n else negsuc (u128_mod - n - 1)

unfoldable pub bias_i128 : ℤ → ℕ
unfolding to_u128
bias_i128 value = bit_xor (to_u128 value) i128_half

unfoldable pub unbias_i128 : ℕ → ℤ
unfolding to_i128
unbias_i128 value = to_i128 (bit_xor value i128_half)

unfoldable pub checked_work : ℕ → Result ModelError ℤ
checked_work ticks = mul_u128 ticks work_unit >>= λ work. checked_i128 work

unfoldable pub checked_virtual_length : ℕ → ℕ → Result ModelError ℤ
checked_virtual_length q weight =
    if weight == 0
    then err invalid_weight
    else checked_mul_div_ceil q work_unit weight >>= λ length. checked_i128 length

unfoldable pub checked_lag_at : ℤ → ℤ → ℕ → ℤ → Result ModelError ℤ
checked_lag_at lag stamp weight v =
    if weight == 0
    then err invalid_weight
    else sub_i128 v stamp >>= λ delta.
        checked_mul_i128_u128 delta weight >>= λ change. add_i128 lag change

abbrev pub checked_deadline : ℤ → ℤ → Result ModelError ℤ
checked_deadline start length = add_i128 start length

unfoldable pub request_quantum : EevdfProfile → RequestClass → ℕ → ℕ → Result ModelError ℕ
request_quantum profile kind weight total_weight =
    let target = target_ticks profile kind in
    if weight == 0 || total_weight == 0
    then err invalid_weight
    else if leb total_weight weight
    then ok target
    else checked_mul_div_ceil target weight total_weight >>= λ q. ok (min (max q 1) target)

-- The two signs of `signed_ceil_neg_div`.
abbrev pub ceil_neg_div : ℤ → ℕ → Result ModelError ℤ
ceil_neg_div (pos n) denominator = ok (negated (n / denominator))
ceil_neg_div (negsuc n) denominator =
    checked_ceil_div (suc n) denominator >>= λ quotient. checked_i128 quotient

unfoldable pub signed_ceil_neg_div : ℤ → ℕ → Result ModelError ℤ
signed_ceil_neg_div value denominator =
    if denominator == 0 then err invalid_weight else ceil_neg_div value denominator

unfoldable pub request_start : ℤ → ℤ → ℕ → Result ModelError ℤ
unfolding signed_ceil_neg_div
request_start v materialized_lag weight =
    signed_ceil_neg_div materialized_lag weight >>= λ offset. add_i128 v offset
