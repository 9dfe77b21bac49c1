-- ===== src/Sched/Eevdf/Word.antt =====
-- crates/thekernel-axsched/src/eevdf_profile.rs, and the constants, the request classes, the error
-- and the checked integer steps of eevdf_model.rs. The profile that a build selects is an argument.
use thekernel_ax.Prelude.{
  ℕ, zero, suc, ◌+◌, ◌-◌, ◌*◌, ◌/◌, ◌%◌, ◌^◌, ◌≤◌, ◌<◌, Bool, not, ◌&&◌, ltb, leb, ◌==◌,
  if◌then◌else◌, bit_and,
}
use thekernel_ax.Prelude.Int.{ℤ, pos, negsuc, pos_part, neg_part, ◌+ℤ◌, ◌-ℤ◌}
use thekernel_ax.Prelude.Result.{Result, err, ok, ◌>>=◌}

abbrev pub u128_mod : ℕ
u128_mod = 2 ^ 128

-- `i128::MAX as u128` is one below this number, and `i128::MIN` is its negation.
abbrev pub i128_half : ℕ
i128_half = 2 ^ 127

pub record EevdfProfile : Type 0 where
  pub normal_target_ticks : ℕ
  pub batch_target_ticks : ℕ
  pub idle_target_ticks : ℕ
  pub sleeper_grace_ticks : ℕ
  pub sleeper_decay_ticks : ℕ

abbrev pub latency : EevdfProfile
latency = record {
  normal_target_ticks = 4;
  batch_target_ticks = 16;
  idle_target_ticks = 4;
  sleeper_grace_ticks = 4;
  sleeper_decay_ticks = 32;
}

abbrev pub throughput : EevdfProfile
throughput = record {
  normal_target_ticks = 16;
  batch_target_ticks = 64;
  idle_target_ticks = 16;
  sleeper_grace_ticks = 16;
  sleeper_decay_ticks = 128;
}

abbrev pub balanced : EevdfProfile
balanced = record {
  normal_target_ticks = 8;
  batch_target_ticks = 32;
  idle_target_ticks = 8;
  sleeper_grace_ticks = 8;
  sleeper_decay_ticks = 64;
}

abbrev pub is_power_of_two : ℕ → Bool
is_power_of_two value = not (value == 0) && (bit_and value ((value + u128_mod - 1) % u128_mod) == 0)

abbrev pub has_power_of_two_parameters : EevdfProfile → Bool
has_power_of_two_parameters p =
    is_power_of_two p.normal_target_ticks
    && is_power_of_two p.batch_target_ticks
    && is_power_of_two p.idle_target_ticks
    && is_power_of_two p.sleeper_grace_ticks
    && is_power_of_two p.sleeper_decay_ticks

-- `ONE`, `NICE_0` and `WORK`.
abbrev pub one_unit : ℕ
one_unit = 2 ^ 32

abbrev pub nice_0 : ℕ
nice_0 = 1024

abbrev pub work_unit : ℕ
work_unit = nice_0 * one_unit

pub data RequestClass : Type 0 where
  normal : RequestClass
  batch : RequestClass
  idle : RequestClass

unfoldable pub target_ticks : EevdfProfile → RequestClass → ℕ
target_ticks p normal = p.normal_target_ticks
target_ticks p batch = p.batch_target_ticks
target_ticks p idle = p.idle_target_ticks

pub data ModelError : Type 0 where
  arithmetic_exhausted : ModelError
  invalid_weight : ModelError
  invalid_state : ModelError

-- `checked_add`, `checked_mul` and `checked_sub` of a `u128`, under `ok_or(ArithmeticExhausted)`.
abbrev pub add_u128 : ℕ → ℕ → Result ModelError ℕ
add_u128 a b = if ltb (a + b) u128_mod then ok (a + b) else err arithmetic_exhausted

abbrev pub mul_u128 : ℕ → ℕ → Result ModelError ℕ
mul_u128 a b = if ltb (a * b) u128_mod then ok (a * b) else err arithmetic_exhausted

-- The range of an `i128`.
abbrev pub FitsI128 : ℤ → Type 0
FitsI128 a = (pos_part a < i128_half) × (neg_part a ≤ i128_half)

abbrev pub fits_i128 : ℤ → Bool
fits_i128 a = ltb (pos_part a) i128_half && leb (neg_part a) i128_half

-- `checked_add` and `checked_sub` of an `i128`, under `ok_or(ArithmeticExhausted)`.
abbrev pub add_i128 : ℤ → ℤ → Result ModelError ℤ
add_i128 a b = if fits_i128 (a +ℤ b) then ok (a +ℤ b) else err arithmetic_exhausted

abbrev pub sub_i128 : ℤ → ℤ → Result ModelError ℤ
sub_i128 a b = if fits_i128 (a -ℤ b) then ok (a -ℤ b) else err arithmetic_exhausted

-- `-(value as i128)` of a number below `i128_half`.
abbrev pub negated : ℕ → ℤ
negated zero = pos 0
negated (suc n) = negsuc n

unfoldable pub checked_i128 : ℕ → Result ModelError ℤ
checked_i128 value = if ltb (i128_half - 1) value then err arithmetic_exhausted else ok (pos value)

-- `product as i128` keeps the value, which the test has bounded.
abbrev pub signed_product : ℤ → ℕ → Result ModelError ℤ
signed_product (pos n) product =
    if ltb (i128_half - 1) product then err arithmetic_exhausted else ok (pos product)
signed_product (negsuc n) product =
    if ltb i128_half product
    then err arithmetic_exhausted
    else if product == i128_half
    then ok (negsuc (i128_half - 1))
    else ok (negated product)

abbrev pub unsigned_abs : ℤ → ℕ
unsigned_abs (pos n) = n
unsigned_abs (negsuc n) = suc n

unfoldable pub checked_mul_i128_u128 : ℤ → ℕ → Result ModelError ℤ
checked_mul_i128_u128 value factor =
    if unsigned_abs value == 0
    then ok (pos 0)
    else mul_u128 (unsigned_abs value) factor >>= λ product. signed_product value product

unfoldable pub checked_ceil_div : ℕ → ℕ → Result ModelError ℕ
checked_ceil_div numerator denominator =
    if denominator == 0
    then err invalid_weight
    else if numerator % denominator == 0
    then ok (numerator / denominator)
    else add_u128 (numerator / denominator) 1
