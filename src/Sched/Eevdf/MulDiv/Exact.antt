-- ===== src/Sched/Eevdf/MulDiv/Exact.antt =====
-- crates/thekernel-axsched/src/eevdf_model.rs: the loop of `checked_mul_div_rem` against the
-- product and the division of numbers.
use thekernel_ax.Prelude.{
  ℕ, zero, suc, ◌+◌, ◌*◌, ◌/◌, ◌%◌, ◌^◌, ◌≤◌, ◌<◌, ◌≡◌, sym, arith, ltb, leb, if◌then◌else◌, inl,
  inr, Bool-cases, lt→ltb,
}
use thekernel_ax.Prelude.Bits.{bit, bit-eq-div, bit-lt_two}
use thekernel_ax.Prelude.Result.{err, ok}
use thekernel_ax.Sched.Eevdf.Word.{u128_mod, arithmetic_exhausted}
use thekernel_ax.Sched.Eevdf.Divide.{bit_set, checked_div_129}
use thekernel_ax.Sched.Eevdf.Divide.Exact.{
  wide, quotient_remainder, divided, div_unique, from_bit-bit_set, quotient_remainder_exhausted,
  checked_div_129-eq-divided,
}
use thekernel_ax.Sched.Eevdf.MulDiv.{div_sum, next_quotient, mul_div_loop, checked_mul_div_rem}
use native.Mathlib.Nat.{
  pow-suc, div-div-eq-div-mul, le-div_iff_mul-le, div-lt_iff_lt-mul, div-add-mod', mod-lt,
  div-le_self,
}

-- The sum of two words, taken with its overflow bit.
pub div_sum-eq-quotient :
    (a b d : ℕ) → 0 < d → a < u128_mod → b < u128_mod → div_sum a b d ≡ quotient_remainder (a + b) d
div_sum-eq-quotient a b d h ha hb =
    let low : (a + b) % u128_mod < u128_mod = omega arith in
    let same : wide (leb u128_mod (a + b)) ((a + b) % u128_mod) ≡ a + b = ground arith in
    rw (checked_div_129-eq-divided (leb u128_mod (a + b)) ((a + b) % u128_mod) d low, same)
      (ground arith)

-- The doubled remainder, with the bit that the shift drops.
doubled-eq-quotient :
    (r d : ℕ)
    → 0 < d
    → r < u128_mod
    → checked_div_129 (bit_set r 127) (r * 2 % u128_mod) d ≡ quotient_remainder (2 * r) d
doubled-eq-quotient r d h hr =
    let low : r * 2 % u128_mod < u128_mod = omega arith in
    let same : wide (bit_set r 127) (r * 2 % u128_mod) ≡ 2 * r =
      omega (arith, from_bit-bit_set r 127, bit-eq-div r 127) in
    rw (checked_div_129-eq-divided (bit_set r 127) (r * 2 % u128_mod) d low, same) (ground arith)

next_quotient_lem :
    (q m n : ℕ)
    → next_quotient q m n
      ≡ (if ltb (q * 2 + (m + n)) u128_mod then ok (q * 2 + (m + n)) else err arithmetic_exhausted)
next_quotient_lem q m n = ground arith

-- The partial quotients of a round, whatever its digit.
round_keeps :
    (k a b d q r m n t u : ℕ)
    → q * d + r ≡ a / 2 ^ suc k * b
    → m * d + n ≡ 2 * r
    → t * d + u ≡ n + bit a k * b
    → (q * 2 + (m + t)) * d + u ≡ a / 2 ^ k * b
round_keeps k a b d q r m n t u e em et =
    let half : a / 2 ^ suc k ≡ a / 2 ^ k / 2 =
      rw (pow-suc 2 k) (sym (div-div-eq-div-mul a (2 ^ k) 2)) in
    let digits : a / 2 ^ k ≡ 2 * (a / 2 ^ suc k) + bit a k = omega (arith, bit-eq-div a k) in
    rw digits (grind arith)

-- A quotient of the leading digits bounds the quotient.
product_prefix-le : (k a b d q : ℕ) → 0 < d → q * d ≤ a / 2 ^ k * b → q ≤ a * b / d
product_prefix-le k a b d q h e =
    let shorter : a / 2 ^ k * b ≤ a * b = grind (arith, div-le_self a (2 ^ k)) in
    (le-div_iff_mul-le h).1 (omega arith)

doubled_fits : (r d : ℕ) → r < d → 2 * r / d < u128_mod
doubled_fits r d h =
    let two : 2 * r / d < 2 = (div-lt_iff_lt-mul {k = d} (omega arith)).1 (omega arith) in
    omega arith

-- The loop, with each step read as a division of numbers.
mul_div_loop_lem :
    (k a b d q r : ℕ)
    → b < u128_mod
    → d < u128_mod
    → r < d
    → q < u128_mod
    → q * d + r ≡ a / 2 ^ k * b
    → mul_div_loop k a b d q r ≡ quotient_remainder (a * b) d
unfolding mul_div_loop
mul_div_loop_lem zero a b d q r hb hd hr hq e =
    let parts = div_unique (a * b) d q r hr (grind arith) in rw (parts.0, parts.1) (ground arith)
mul_div_loop_lem (suc k) a b d q r hb hd hr hq e =
    let n = 2 * r % d in
    let m = 2 * r / d in
    let small : n < d = mod-lt (2 * r) (omega arith) in
    let doubled = doubled-eq-quotient r d (omega arith) (omega arith) in
    let fits = lt→ltb (2 * r / d) u128_mod (doubled_fits r d hr) in
    let doubling = div-add-mod' (2 * r) d in
    elim (Bool-cases (bit_set a k)) [
      | inl on ↦
          let t = (n + b) / d in
          let u = (n + b) % d in
          let total = q * 2 + (m + t) in
          let one_digit : bit a k ≡ 1 = ground (arith, bit-lt_two a k) in
          let kept =
            round_keeps k a b d q r m n t u e doubling
              (rw one_digit (omega (arith, div-add-mod' (n + b) d))) in
          let bound = product_prefix-le k a b d total (omega arith) (omega arith) in
          let below : u < d = mod-lt (n + b) (omega arith) in
          rw (doubled, fits, on, div_sum-eq-quotient n b d (omega arith) (omega arith) hb)
            (ground (
              arith,
              mul_div_loop_lem k a b d total u hb hd below,
              quotient_remainder_exhausted (a * b) d,
            ))
      | inr off ↦
          let total = q * 2 + (m + 0) in
          let no_digit : bit a k ≡ 0 = ground arith in
          let kept = round_keeps k a b d q r m n 0 n e doubling (rw no_digit (omega arith)) in
          let bound = product_prefix-le k a b d total (omega arith) (omega arith) in
          rw (doubled, fits, off, next_quotient_lem)
            (ground (
              arith,
              mul_div_loop_lem k a b d total n hb hd small,
              quotient_remainder_exhausted (a * b) d,
            ))
    ]

-- For operands that are u128 words, checked_mul_div_rem returns the quotient and the remainder of
-- the exact product, on the direct path and on the fixed-width one, when the quotient fits a u128,
-- and reports exhaustion when it does not; a zero denominator is an invalid weight.
pub checked_mul_div_rem-eq-divided :
    (a b d : ℕ)
    → a < u128_mod
    → b < u128_mod
    → d < u128_mod
    → checked_mul_div_rem a b d ≡ divided (a * b) d
unfolding checked_mul_div_rem
checked_mul_div_rem-eq-divided a b d ha hb hd =
    ground (arith, mul_div_loop_lem 128 a b d 0 0, div-le_self (a * b) d)
