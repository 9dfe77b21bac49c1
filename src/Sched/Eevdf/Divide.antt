-- ===== src/Sched/Eevdf/Divide.antt =====
-- crates/thekernel-axsched/src/eevdf_model.rs: `checked_div_129`, `checked_mul_div_rem`,
-- `checked_mul_div_ceil` and `checked_mul_div_round_nearest_even`. Unchecked sums, differences and
-- shifts are written on numbers; the loop invariants keep them in range.
pub mod Step
pub mod Exact
use thekernel_ax.Prelude.{
  ℕ, zero, suc, ◌+◌, ◌-◌, ◌*◌, ◌/◌, ◌%◌, Bool, true, false, not, ◌&&◌, ltb, leb, ◌==◌,
  if◌then◌else◌,
}
use thekernel_ax.Prelude.Bits.{bit}
use thekernel_ax.Prelude.Result.{Result, err, ok}
use thekernel_ax.Sched.Eevdf.Word.{u128_mod, ModelError, arithmetic_exhausted, invalid_weight}

-- `u128::from(bit)`.
abbrev pub from_bit : Bool → ℕ
from_bit false = 0
from_bit true = 1

-- `(word >> position) & 1 != 0`.
abbrev pub bit_set : ℕ → ℕ → Bool
bit_set word position = not (bit word position == 0)

-- One quotient bit and the next remainder.
unfoldable pub div_step : ℕ → ℕ → Bool → Bool × ℕ
div_step denominator remainder digit =
    let half = denominator / 2 in
    if denominator % 2 == 0
    then if leb half remainder
      then (true, (remainder - half) * 2 + from_bit digit)
      else (false, remainder * 2 + from_bit digit)
    else if ltb half remainder
    then (true, (remainder - half) * 2 - 1 + from_bit digit)
    else if (remainder == half) && digit
    then (true, 0)
    else (false, remainder * 2 + from_bit digit)

-- The positions below `rounds` are left.
unfoldable pub div_loop : ℕ → Bool → ℕ → ℕ → ℕ → ℕ → Result ModelError (ℕ × ℕ)
div_loop zero high low denominator quotient remainder = ok (quotient, remainder)
div_loop (suc position) high low denominator quotient remainder =
    let digit = if position == 128 then high else bit_set low position in
    let (quotient_bit, next) = div_step denominator remainder digit in
    let first = div_loop position high low denominator quotient next in
    let later =
      div_loop position high low denominator (quotient * 2 + from_bit quotient_bit) next in
    if position == 128
    then if quotient_bit then err arithmetic_exhausted else first
    else if ltb ((u128_mod - 1) / 2) quotient
    then err arithmetic_exhausted
    else later

unfoldable pub checked_div_129 : Bool → ℕ → ℕ → Result ModelError (ℕ × ℕ)
unfolding div_loop
checked_div_129 high low denominator =
    if denominator == 0 then err invalid_weight else div_loop 129 high low denominator 0 0
