-- ===== src/Sched/Eevdf/MulDiv.antt =====
-- crates/thekernel-axsched/src/eevdf_model.rs: `checked_mul_div_rem`, `checked_mul_div_ceil` and
-- `checked_mul_div_round_nearest_even`.
pub mod Exact
pub mod Round
use thekernel_ax.Prelude.{
  ℕ, zero, suc, ◌+◌, ◌*◌, ◌/◌, ◌%◌, Bool, true, not, ◌&&◌, ltb, leb, ◌==◌, if◌then◌else◌,
}
use thekernel_ax.Prelude.Result.{Result, err, ok, ◌>>=◌}
use thekernel_ax.Sched.Eevdf.Word.{u128_mod, ModelError, invalid_weight, add_u128, mul_u128}
use thekernel_ax.Sched.Eevdf.Divide.{bit_set, checked_div_129}

-- `checked_div_129(high, low, denominator)` of `left.overflowing_add(right)`.
abbrev pub div_sum : ℕ → ℕ → ℕ → Result ModelError (ℕ × ℕ)
div_sum left right denominator =
    checked_div_129 (leb u128_mod (left + right)) ((left + right) % u128_mod) denominator

-- `quotient.checked_mul(2)`, then `checked_add` of the two partial quotients.
abbrev pub next_quotient : ℕ → ℕ → ℕ → Result ModelError ℕ
next_quotient quotient double_quotient add_quotient =
    add_u128 double_quotient add_quotient >>= λ extra.
    mul_u128 quotient 2 >>= λ twice. add_u128 twice extra

-- The positions below `rounds` are left.
unfoldable pub mul_div_loop : ℕ → ℕ → ℕ → ℕ → ℕ → ℕ → Result ModelError (ℕ × ℕ)
mul_div_loop zero a b denominator quotient remainder = ok (quotient, remainder)
mul_div_loop (suc position) a b denominator quotient remainder =
    checked_div_129 (bit_set remainder 127) (remainder * 2 % u128_mod) denominator >>= λ doubled.
    (if bit_set a position then div_sum doubled.1 b denominator else ok (0, doubled.1)) >>= λ added.
    next_quotient quotient doubled.0 added.0 >>= λ next.
    mul_div_loop position a b denominator next added.1

unfoldable pub checked_mul_div_rem : ℕ → ℕ → ℕ → Result ModelError (ℕ × ℕ)
checked_mul_div_rem a b denominator =
    if denominator == 0
    then err invalid_weight
    else if ltb (a * b) u128_mod
    then ok (a * b / denominator, a * b % denominator)
    else mul_div_loop 128 a b denominator 0 0

unfoldable pub checked_mul_div_ceil : ℕ → ℕ → ℕ → Result ModelError ℕ
checked_mul_div_ceil a b denominator = checked_mul_div_rem a b denominator >>= λ parts.
    if parts.1 == 0 then ok parts.0 else add_u128 parts.0 1

unfoldable pub round_up : ℕ → ℕ → ℕ → Bool
round_up quotient remainder denominator =
    if ltb (denominator / 2) remainder
    then true
    else (remainder == denominator / 2) && (denominator % 2 == 0) && not (quotient % 2 == 0)

unfoldable pub checked_mul_div_round_nearest_even : ℕ → ℕ → ℕ → Result ModelError ℕ
unfolding round_up
checked_mul_div_round_nearest_even a b denominator =
    checked_mul_div_rem a b denominator >>= λ parts.
    if round_up parts.0 parts.1 denominator then add_u128 parts.0 1 else ok parts.0
