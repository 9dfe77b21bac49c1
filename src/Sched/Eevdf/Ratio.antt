-- ===== src/Sched/Eevdf/Ratio.antt =====
-- crates/thekernel-axsched/src/eevdf_model.rs: `gcd_u128` and `checked_ratio_ceil`.
pub mod Gcd
pub mod Division
pub mod Reduce
pub mod Exact
use thekernel_ax.Prelude.{
  ℕ, zero, suc, ◌+◌, ◌*◌, ◌/◌, ◌%◌, Bool, ◌||◌, ◌&&◌, ltb, ◌==◌, if◌then◌else◌,
}
use thekernel_ax.Prelude.Result.{Result, panic, ok, ◌>>=◌}
use thekernel_ax.Sched.Eevdf.Word.{ModelError, u128_mod, checked_ceil_div}
use thekernel_ax.Sched.Eevdf.Divide.{from_bit}
use thekernel_ax.Sched.Eevdf.Wide.{
  Wide, wide_zero, wide_bit, shl1, wide_ge, wide_wrapping_sub, set_low_bit, wide_checked_add_one,
  wide_mul_u128, wide_mul, low_u128,
}

-- The right operand falls in every round.
unfoldable pub gcd_loop : ℕ → ℕ → ℕ → ℕ
gcd_loop zero left right = left
gcd_loop (suc fuel) left right =
    let rest = gcd_loop fuel right (left % right) in if right == 0 then left else rest

unfoldable pub gcd_u128 : ℕ → ℕ → ℕ
unfolding gcd_loop
gcd_u128 left right = gcd_loop (suc right) left right

-- The reduced numerator and denominator; a division by zero panics.
abbrev pub reduce : ℕ → ℕ → Result ModelError (ℕ × ℕ)
reduce numerator denominator =
    if gcd_u128 numerator denominator == 0
    then panic
    else ok
        (numerator / gcd_u128 numerator denominator, denominator / gcd_u128 numerator denominator)

pub record Factors : Type 0 where
  pub numerator_0 : ℕ
  pub numerator_1 : ℕ
  pub numerator_2 : ℕ
  pub denominator_0 : ℕ
  pub denominator_1 : ℕ

-- One numerator against both denominators.
abbrev pub reduce_both : ℕ → ℕ → ℕ → Result ModelError (ℕ × ℕ × ℕ)
reduce_both numerator denominator_0 denominator_1 = reduce numerator denominator_0 >>= λ first.
    reduce first.0 denominator_1 >>= λ second. ok (second.0, first.1, second.1)

unfoldable pub reduce_all : Factors → Result ModelError Factors
reduce_all f = reduce_both f.numerator_0 f.denominator_0 f.denominator_1 >>= λ first.
    reduce_both f.numerator_1 first.1 first.2 >>= λ second.
    reduce_both f.numerator_2 second.1 second.2 >>= λ third. ok (record {
      numerator_0 = first.0;
      numerator_1 = second.0;
      numerator_2 = third.0;
      denominator_0 = third.1;
      denominator_1 = third.2;
    })

-- The long division of the wide words.
unfoldable pub ratio_loop : ℕ → Wide → Wide → Wide → Wide → Wide × Wide
ratio_loop zero numerator denominator quotient remainder = (quotient, remainder)
ratio_loop (suc position) numerator denominator quotient remainder =
    let (carry, doubled) = shl1 remainder in
    let shifted = record doubled {
      limb_0 = doubled.limb_0 + from_bit (wide_bit numerator position);
    } in
    let digit = carry || wide_ge shifted denominator in
    ratio_loop position numerator denominator (set_low_bit (shl1 quotient).1 digit)
      (if digit then wide_wrapping_sub shifted denominator else shifted)

abbrev pub is_wide_zero : Wide → Bool
is_wide_zero w = w.limb_0 == 0 && w.limb_1 == 0 && w.limb_2 == 0 && w.limb_3 == 0

abbrev pub wide_ratio_ceil : Factors → Result ModelError ℕ
wide_ratio_ceil f = wide_mul_u128 f.numerator_0 f.numerator_1 >>= λ partial.
    wide_mul partial f.numerator_2 >>= λ numerator.
    wide_mul_u128 f.denominator_0 f.denominator_1 >>= λ denominator.
    (let result = ratio_loop 256 numerator denominator wide_zero wide_zero in
      (if is_wide_zero result.1 then ok result.0 else wide_checked_add_one result.0) >>= λ quotient.
      low_u128 quotient)

-- `try_fold` of `checked_mul`, from one.
abbrev pub product_fits : Factors → Bool
product_fits f =
    ltb f.numerator_0 u128_mod
    && ltb (f.numerator_0 * f.numerator_1) u128_mod
    && ltb (f.numerator_0 * f.numerator_1 * f.numerator_2) u128_mod
    && ltb f.denominator_0 u128_mod
    && ltb (f.denominator_0 * f.denominator_1) u128_mod

unfoldable pub checked_ratio_ceil : Factors → Result ModelError ℕ
checked_ratio_ceil factors = reduce_all factors >>= λ f.
    if product_fits f
    then checked_ceil_div (f.numerator_0 * f.numerator_1 * f.numerator_2)
        (f.denominator_0 * f.denominator_1)
    else wide_ratio_ceil f
